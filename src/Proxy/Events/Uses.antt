-- ===== src/Proxy/Events/Uses.antt =====
-- recorder.go, cleaner.go: what a proxy records of a blob counts as a use of its layer file.
use Prim.Native.Nat.{ℕ, ◌≤◌}
use accelerboat.Base.{
  ◌≡◌, ◌≢◌, refl, Bool, true, false, Option, none, some, List, [], ◌∷◌, if_ind, opt_else_ind,
}
use accelerboat.Base.Int.{ℤ, pos}
use accelerboat.Base.Sort.{All, In, All-append, All_In}
use accelerboat.Base.Keys.{mem, lookup, insert}
use accelerboat.Base.Text.{Text, codes, text_eq, text_ne, text_eq_refl, NoSpace, trim_space-id}
use accelerboat.Recorder.{Event, str}
use accelerboat.Layer.Cached.{DownloadLayerResponse}
use accelerboat.Cleaner.{
  normalize_digest, digest_from_details, blob_types, used_at, build_digest_last_used, is_empty,
  list_events_limit,
}
use accelerboat.Cleaner.Usage.{counts_for, start_time, build_digest_last_used-IsLatest}
use accelerboat.Proxy.Events.{
  recorder_serve_blob_from_local, get_blob_from_master_events, download_blob_by_tcp_events,
  download_blob_by_torrent_events, GetBlobRun, handle_layer_download_events, handle_get_blob_events,
}

list_ind :
    {A : Type 0} (P : A → Type 0) (s : Text) (x : A) (f : ℕ → Text → A)
    → P x
    → ((c : ℕ) (t : Text) → P (f c t))
    → P (elim s [ [] ↦ x | ◌∷◌ c t ↦ f c t ])
list_ind P [] x f n h = n
list_ind P (c ∷ t) x f n h = h c t

module _ (host repo digest : Text) (plain : NoSpace digest) (given : digest ≢ []) where
  abbrev Counts : Event → Type 0
  Counts e = counts_for (normalize_digest digest) e ≡ true

  counts_lem :
      (e : Event)
      → mem e.kind blob_types ≡ true
      → lookup (codes "digest") e.details ≡ some (str digest)
      → Counts e
  unfolding digest_from_details
  counts_lem e kind has =
      rw (kind, has, digest_from_details, trim_space-id digest plain, text_ne digest [] given)
        (text_eq_refl (normalize_digest digest))

  -- Of a kind that counts, with the digest.
  abbrev Carries : Event → Type 0
  Carries e =
      (mem e.kind blob_types ≡ true) × (lookup (codes "digest") e.details ≡ some (str digest))

  Carries-counts : (es : List Event) → All Carries es → All Counts es
  Carries-counts [] h = tt
  Carries-counts (e ∷ es) (h, hs) = (counts_lem e h.0 h.1, Carries-counts es hs)

  serve-Carries :
      (d size : ℤ) (err : Option Text)
      → Carries (recorder_serve_blob_from_local host repo digest d size err)
  unfolding recorder_serve_blob_from_local mem lookup text_eq
  serve-Carries d size none = (refl, refl)
  serve-Carries d size (some e) = (refl, refl)

  from_master-Carries :
      (d : ℤ) (master err : Text) (answer : Option DownloadLayerResponse)
      → All Carries (get_blob_from_master_events host repo digest d master err answer)
  unfolding get_blob_from_master_events mem lookup text_eq insert
  from_master-Carries d master err none = ((refl, refl), ((refl, refl), tt))
  from_master-Carries d master err (some resp) = ((refl, refl), ((refl, refl), tt))

  by_tcp-Carries :
      (d : ℤ) (resp : DownloadLayerResponse) (err : Option Text)
      → All Carries (download_blob_by_tcp_events host repo digest d resp err)
  unfolding download_blob_by_tcp_events mem lookup text_eq
  by_tcp-Carries d resp none = ((refl, refl), ((refl, refl), tt))
  by_tcp-Carries d resp (some e) = ((refl, refl), ((refl, refl), tt))

  by_torrent-Carries :
      (d : ℤ) (resp : DownloadLayerResponse) (err : Option Text)
      → All Carries (download_blob_by_torrent_events host repo digest d resp err)
  unfolding download_blob_by_torrent_events mem lookup text_eq
  by_torrent-Carries d resp none = ((refl, refl), ((refl, refl), tt))
  by_torrent-Carries d resp (some e) = ((refl, refl), ((refl, refl), tt))

  download-Carries :
      (resp : DownloadLayerResponse) (run : GetBlobRun)
      → All Carries (handle_layer_download_events host repo digest resp run).0
  unfolding handle_layer_download_events
  download-Carries resp run = list_ind Q resp.torrent_base64 _ _ tcp (λ c s.
      opt_else_ind Q run.torrent_error _ _ (λ e. torrent)
        (λ x e. All-append Carries torrent_events tcp_events torrent tcp))
    where
      Q : List Event × Bool → Type 0
      Q r = All Carries r.0

      tcp_events : List Event
      tcp_events = download_blob_by_tcp_events host repo digest (run.took 2) resp run.tcp_error

      torrent_events : List Event
      torrent_events =
          download_blob_by_torrent_events host repo digest (run.took 3) resp run.torrent_error

      tcp : All Carries tcp_events
      tcp = by_tcp-Carries (run.took 2) resp run.tcp_error

      torrent : All Carries torrent_events
      torrent = by_torrent-Carries (run.took 3) resp run.torrent_error

  get_blob-Carries : (run : GetBlobRun) → All Carries (handle_get_blob_events host repo digest run)
  unfolding handle_get_blob_events
  get_blob-Carries run =
      opt_else_ind (All Carries) run.local _ _
        (λ e.
          All-append Carries asked _
            (from_master-Carries (run.took 1) run.master run.ask_error run.answer)
            (opt_else_ind (All Carries) run.answer [] _ (λ n. tt)
              (λ resp a.
                if_ind (All Carries) run.served_first _ _
                  (λ h. (serve-Carries (run.took 4) resp.file_size none, tt))
                  (λ h.
                    if_ind (All Carries) (handle_layer_download_events host repo digest resp run).1
                      _ _
                      (λ k.
                        All-append Carries
                          (handle_layer_download_events host repo digest resp run).0 _
                          (download-Carries resp run)
                          (serve-Carries (run.took 4) resp.file_size _, tt))
                      (λ k. download-Carries resp run)))))
        (λ found e. (serve-Carries (run.took 0) found.0 _, tt))
    where
      asked : List Event
      asked =
          get_blob_from_master_events host repo digest (run.took 1) run.master run.ask_error
            run.answer

  -- Serving a blob keeps its layer file young for the cleaner: an event of any run of handleGetBlob that
  -- the recorder stamped and that is among the listed ones makes the digest's time of last use no
  -- earlier than the event, whatever way the run took and whether it succeeded. There is an event file,
  -- and the digest is not empty and has no space.
  pub handle_get_blob_events-used :
      (list : ℤ → List Text → Option ℕ → List Event) (now : ℕ) (event_file : Text) (retain_days : ℕ)
      (run : GetBlobRun) (e : Event) (time : ℕ) (id : Text)
      → is_empty event_file ≡ false
      → In e (handle_get_blob_events host repo digest run)
      → In
          (record e { timestamp = time; request_id = id })
          (list (pos list_events_limit) blob_types (start_time now retain_days))
      → time
        ≤ used_at (normalize_digest digest) (build_digest_last_used list now event_file retain_days)
  handle_get_blob_events-used list now event_file retain_days run e time id has_file recorded
        listed =
      let latest =
        build_digest_last_used-IsLatest list now event_file retain_days (normalize_digest digest)
          has_file in
      All_In (λ f. counts_for (normalize_digest digest) f ≡ true → f.timestamp ≤ last_use)
        (record e { timestamp = time; request_id = id }) listed_events latest.0 listed
        (All_In Counts e events (Carries-counts events (get_blob-Carries run)) recorded)
    where
      last_use : ℕ
      last_use =
          used_at (normalize_digest digest) (build_digest_last_used list now event_file retain_days)

      listed_events : List Event
      listed_events = list (pos list_events_limit) blob_types (start_time now retain_days)

      events : List Event
      events = handle_get_blob_events host repo digest run
