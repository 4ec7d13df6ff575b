-- ===== src/Torrent/Made.antt =====
-- torrent.go: what GenerateTorrent answers with.
use Prim.Native.Nat.{ℕ, zero, suc, ◌<◌}
use accelerboat.Base.{
  ◌≡◌, ◌≢◌, refl, sym, ap, some_inj, ◌∙◌, ◌⊎◌, inl, inr, true, not, Option, none, some, arith,
  if_ind, opt_else_ind,
}
use accelerboat.Base.Keys.{lookup}
use accelerboat.Base.Text.{Text}
use accelerboat.Layer.Download.{Files, path_join, layer_file_name}
use accelerboat.Torrent.{
  Disk, Torrent, Client, copy_file, check_torrent_local_exist, generate_serve_torrent,
  generate_rounds, handle_generate_torrent,
}
use accelerboat.Torrent.Copy.{copy_file_lem}

module _ (client : Client) (disk : Disk) where
  -- The client after some rounds.
  abbrev pub after_rounds : ℕ → Text → Text → Files → client.State → client.State
  after_rounds zero digest layer_file fs s = s
  after_rounds (suc n) digest layer_file fs s =
      after_rounds n digest layer_file fs
        (generate_serve_torrent client disk digest layer_file fs s).1

  -- Of `k` rounds, one is the last: it makes the torrent, of the info of the file's bytes, and the client
  -- has a torrent of the digest then.
  abbrev pub IsMadeAt : ℕ → Text → Text → Files → client.State → Torrent → client.State → Type 0
  IsMadeAt k digest layer_file fs s t s' =
      (n : ℕ) × (bytes : Text) × (info : client.Info) × (found : Torrent × Text) × (n < k)
      × (lookup layer_file fs ≡ some bytes)
      × (client.build bytes ≡ some info)
      × ((client.add info (after_rounds n digest layer_file fs s)).0 ≡ some t)
      × (generate_serve_torrent client disk digest layer_file fs
            (after_rounds n digest layer_file fs s)
          ≡ (some t, s'))
      × (check_torrent_local_exist client disk digest s' ≡ some found)

  abbrev Made : ℕ → Text → Text → Files → client.State → Option Torrent × client.State → Type 0
  Made k digest layer_file fs s (made, s') =
      (made ≡ none) ⊎ (t : Torrent) × (made ≡ some t) × IsMadeAt k digest layer_file fs s t s'

  -- A torrent that a round makes is the one that AddTorrent gave for the info of the file.
  Added : Text → Files → client.State → Option Torrent × client.State → Type 0
  Added layer_file fs s (made, s') =
      (t : Torrent)
      → made ≡ some t
      → (bytes : Text) × (info : client.Info) × (lookup layer_file fs ≡ some bytes)
        × (client.build bytes ≡ some info)
        × ((client.add info s).0 ≡ some t)

  generate_serve_torrent-Added :
      (digest layer_file : Text) (fs : Files) (s : client.State)
      → Added layer_file fs s (generate_serve_torrent client disk digest layer_file fs s)
  unfolding generate_serve_torrent Added
  generate_serve_torrent-Added digest layer_file fs s =
      opt_else_ind (Added layer_file fs s) (lookup layer_file fs) _ _ (λ e t m. absurd cc)
        (λ bytes there.
          opt_else_ind (Added layer_file fs s) (client.build bytes) _ _ (λ e t m. absurd cc)
            (λ info built.
              let added = client.add info s in
              opt_else_ind (Added layer_file fs s) added.0 _ _ (λ e t m. absurd cc)
                (λ u got.
                  let merged = client.merge digest u added.1 in
                  let verified = client.verify u merged.1 in
                  if_ind (Added layer_file fs s) (not merged.0) _ _ (λ e t m. absurd cc)
                    (λ e.
                      if_ind (Added layer_file fs s) verified.0 _ _
                        (λ e t m. (bytes, info, there, built, got ∙ m)) (λ e t m. absurd cc)))))

  generate_rounds-Made :
      (k : ℕ) (digest layer_file : Text) (fs : Files) (s : client.State)
      → Made k digest layer_file fs s (generate_rounds client disk k digest layer_file fs s)
  unfolding generate_rounds Added
  generate_rounds-Made zero digest layer_file fs s = inl refl
  generate_rounds-Made (suc k) digest layer_file fs s =
      let got = generate_serve_torrent client disk digest layer_file fs s in
      opt_else_ind (Made (suc k) digest layer_file fs s) got.0 _ _ (λ e. inl refl)
        (λ t e.
          let (bytes, info, there, built, added) =
            generate_serve_torrent-Added digest layer_file fs s t e in
          opt_else_ind (Made (suc k) digest layer_file fs s)
            (check_torrent_local_exist client disk digest got.1) _ _
            (λ n. elim (generate_rounds-Made k digest layer_file fs got.1) [
              | inl nothing ↦ inl nothing
              | inr (t', same, made) ↦
                  let (n, b, i, found', lt, at', built', added', run, has) = made in
                  inr (t', same, (suc n, b, i, found', omega arith, at', built', added', run, has))
            ])
            (λ found h. inr (
              t,
              refl,
              (0, bytes, info, found, omega arith, there, built, added, (λ i. (e i, got.1)), h),
            )))

  -- What an answer of handleGenerateTorrent stands for.
  abbrev pub IsGenerated :
      Text → Text → Text → Files → client.State → Option Text × (Files × client.State) → Type 0
  IsGenerated torrent_path digest source fs s (r, (fs', s')) =
      ((r ≡ none) × (check_torrent_local_exist client disk digest s ≡ none))
      ⊎ ((t : Torrent) × (b : Text) × (r ≡ some b)
          × (check_torrent_local_exist client disk digest s ≡ some (t, b))
          × (fs' ≡ fs)
          × (s' ≡ s))
      ⊎ (t : Torrent) × (bytes : Text) × (r ≡ t.metainfo)
        × (check_torrent_local_exist client disk digest s ≡ none)
        × (lookup source fs ≡ some bytes)
        × (lookup (path_join torrent_path (layer_file_name digest)) fs' ≡ some bytes)
        × IsMadeAt 3 digest (path_join torrent_path (layer_file_name digest)) fs' s t s'

  module _ (torrent_path digest source : Text) (fs : Files) (s : client.State)
      (whole : (bytes : Text) → (disk.copied bytes).1 ≡ true → (disk.copied bytes).0 ≡ bytes)
      (differ : source ≢ path_join torrent_path (layer_file_name digest)) where
    -- GenerateTorrent fails, and the client had no torrent of the digest; or it had one, and answers
    -- with its metainfo and changes nothing; or it had none, and then the torrent's file holds the whole
    -- source, and the answer is the metainfo of the torrent that AddTorrent gave, in one of three rounds
    -- at most, for the info of these bytes; this round is the last, and after it the client has a torrent
    -- of the digest. io.Copy without an error writes all, and the source is not the torrent's file.
    pub handle_generate_torrent_lem :
        IsGenerated torrent_path digest source fs s
          (handle_generate_torrent client disk torrent_path digest source fs s)
    unfolding handle_generate_torrent
    handle_generate_torrent_lem =
        let torrent_file = path_join torrent_path (layer_file_name digest) in
        let copy = copy_file disk source torrent_file fs in
        let served = generate_rounds client disk 3 digest torrent_file copy.1 s in
        opt_else_ind (IsGenerated torrent_path digest source fs s)
          (check_torrent_local_exist client disk digest s) _ _
          (λ absent.
            if_ind (IsGenerated torrent_path digest source fs s) (not copy.0) _ _
              (λ h. inl (refl, absent))
              (λ h.
                opt_else_ind (IsGenerated torrent_path digest source fs s) served.0 _ _
                  (λ e. inl (refl, absent))
                  (λ t e. elim (generate_rounds-Made 3 digest torrent_file copy.1 s) [
                    | inl no_torrent ↦ absurd (cc)
                    | inr (t', same, made) ↦
                        let (bytes, there, good, at) =
                          (copy_file_lem disk source torrent_file fs differ).1 (ground arith) in
                        inr (
                          inr (
                            t',
                            bytes,
                            ap (λ (q : Torrent). q.metainfo) (some_inj (sym e ∙ same)),
                            absent,
                            there,
                            at ∙ ap (λ b. some b) (whole bytes good),
                            made,
                          ))
                  ])))
          (λ old e. let (t, b) = old in inr (inl (t, b, refl, e, refl, refl)))
