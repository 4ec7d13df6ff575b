-- ===== src/Layer/Download/Stored.antt =====
-- layer.go: how requestDownloadLayer ends when no tick sets its err.
use accelerboat.Base.{
  ◌≡◌, ◌≢◌, refl, sym, ◌⊎◌, inl, inr, Bool, true, false, not, Option, none, some, arith, ◌==◌,
  if◌then◌else◌, Option-cases, Bool-cases, if_ind, subst, ==→eq,
}
use accelerboat.Base.Keys.{lookup, insert, delete, lookup-insert, lookup-delete}
use accelerboat.Base.Text.{Text, text_eq, text_eq_iff, text_eq_refl}
use accelerboat.Layer.Cached.{DownloadLayerRequest}
use accelerboat.Layer.Download.{
  Files, Response, Os, quiet, LayerOs, path_join, layer_file_name, rename, store_body,
  request_download_layer,
}

-- How a download ends: it fails and the destination is as it was, or it succeeds, and the
-- destination holds the whole body. Nothing else changes but the file of the download itself.
abbrev pub IsEnd : Response → Text → Text → Files → Bool × Files → Type 0
IsEnd resp full_path dest fs (done, fs') =
    ((done ≡ false) × ((j : Text) → full_path ≢ j → lookup j fs' ≡ lookup j fs))
    ⊎ (done ≡ true)
      × (resp.is_complete ≡ true)
      × (lookup dest fs' ≡ some resp.body)
      × (lookup full_path fs' ≡ none)
      × ((j : Text) → full_path ≢ j → dest ≢ j → lookup j fs' ≡ lookup j fs)

pub written_lem :
    (full_path body : Text) (fs : Files) (j : Text)
    → lookup j (insert full_path body (delete full_path fs))
      ≡ (if text_eq full_path j then some body else lookup j fs)
written_lem full_path body fs j =
    ground
      (arith, lookup-insert full_path j body (delete full_path fs), lookup-delete full_path j fs)

pub renamed_lem :
    (from to body : Text) (fs : Files) (j : Text)
    → lookup from fs ≡ some body
    → lookup j (rename from to fs)
      ≡ (if text_eq to j then some body else if text_eq from j then none else lookup j fs)
unfolding rename
renamed_lem from to body fs j e =
    ground (arith, e, lookup-insert to j body (delete from fs), lookup-delete from j fs)

-- What store_body comes to when no tick comes.
abbrev quiet_body : Os → Response → Text → Text → Files → Bool × Files
quiet_body os resp full_path dest fs =
    let removed = delete full_path fs in
    let written = insert full_path resp.body removed in
    if not (os.can_create full_path)
    then (false, removed)
    else if not resp.is_complete
    then (false, delete full_path written)
    else if not (os.can_rename full_path dest)
    then (false, written)
    else (true, rename full_path dest written)

store_body-quiet :
    (os : Os) (resp : Response) (full_path dest : Text) (fs : Files)
    → store_body os quiet resp full_path dest fs ≡ quiet_body os resp full_path dest fs
unfolding store_body
store_body-quiet os resp full_path dest fs = elim (Bool-cases (os.can_rename full_path dest)) [
  | inl can ↦ rw (can, store_body) refl
  | inr cannot ↦ rw (cannot, store_body) refl
]

store_body_lem :
    (os : Os) (resp : Response) (full_path dest : Text) (fs : Files)
    → full_path ≢ dest
    → IsEnd resp full_path dest fs (quiet_body os resp full_path dest fs)
store_body_lem os resp full_path dest fs differ =
    if_ind P (not (os.can_create full_path)) _ _
      (λ e.
        inl (refl, λ j ne. ground (arith, lookup-delete full_path j fs, text_eq_iff full_path j)))
      (λ e.
        if_ind P (not resp.is_complete) _ _
          (λ e. inl (
            refl,
            λ j ne. ground (
              arith,
              lookup-delete full_path j written,
              written_lem full_path resp.body fs j,
              text_eq_iff full_path j,
            ),
          ))
          (λ whole.
            if_ind P (not (os.can_rename full_path dest)) _ _
              (λ e. inl (
                refl,
                λ j ne.
                    ground (arith, written_lem full_path resp.body fs j, text_eq_iff full_path j),
              ))
              (λ e. inr (
                refl,
                ground arith,
                ground (arith, moved dest, text_eq_refl dest),
                ground (
                  arith,
                  moved full_path,
                  text_eq_iff dest full_path,
                  text_eq_refl full_path,
                  differ,
                ),
                λ j ne nd. ground (
                  arith,
                  moved j,
                  written_lem full_path resp.body fs j,
                  text_eq_iff dest j,
                  text_eq_iff full_path j,
                ),
              ))))
  where
    P : Bool × Files → Type 0
    P = IsEnd resp full_path dest fs

    written : Files
    written = insert full_path resp.body (delete full_path fs)

    moved :
        (j : Text)
        → lookup j (rename full_path dest written) ≡ (
            if text_eq dest j
            then some resp.body
            else if text_eq full_path j
            then none
            else lookup j written)
    moved j =
        renamed_lem full_path dest resp.body written j
          (ground (arith, written_lem full_path resp.body fs full_path, text_eq_refl full_path))

pub request_failed :
    (send : DownloadLayerRequest → Option Response) (los : LayerOs) (download_path : Text)
    (req : DownloadLayerRequest) (dest : Text) (fs : Files)
    → send req ≡ none
    → request_download_layer send los download_path req dest fs ≡ (false, fs)
unfolding request_download_layer
request_failed send los download_path req dest fs e = rw (e, request_download_layer) refl

pub request_answered :
    (send : DownloadLayerRequest → Option Response) (los : LayerOs) (download_path : Text)
    (req : DownloadLayerRequest) (dest : Text) (fs : Files) (resp : Response)
    → send req ≡ some resp
    → request_download_layer send los download_path req dest fs ≡ (
        if not (resp.status_code == 200)
        then (false, fs)
        else store_body los.os los.progress resp
            (path_join download_path (layer_file_name req.digest))
            dest
            fs)
unfolding request_download_layer
request_answered send los download_path req dest fs resp e = rw (e, request_download_layer) refl

-- requestDownloadLayer changes no file but the one it downloads to and, on success, the destination.
-- On success the registry answered 200, the destination holds the whole body, and the downloaded file
-- is gone. The destination is not the file of the download, and no tick of the progress goroutine sets
-- err between an assignment and a read of it.
pub request_download_layer_lem :
    (send : DownloadLayerRequest → Option Response) (los : LayerOs) (download_path : Text)
    (req : DownloadLayerRequest) (dest : Text) (fs : Files)
    → path_join download_path (layer_file_name req.digest) ≢ dest
    → los.progress ≡ quiet
    → let full_path = path_join download_path (layer_file_name req.digest) in
      let (done, fs') = request_download_layer send los download_path req dest fs in
      ((done ≡ false) × ((j : Text) → full_path ≢ j → lookup j fs' ≡ lookup j fs))
      ⊎ (resp : Response) × (send req ≡ some resp)
        × (resp.status_code ≡ 200)
        × IsEnd resp full_path dest fs (done, fs')
request_download_layer_lem send los download_path req dest fs differ calm =
    elim (Option-cases (send req)) [
      | inl none' ↦
          subst P (sym (request_failed send los download_path req dest fs none'))
            (inl (refl, λ j ne. refl))
      | inr (resp, some') ↦
          subst P (sym (request_answered send los download_path req dest fs resp some')) (
            if_ind P (not (resp.status_code == 200)) _ _ (λ e. inl (refl, λ j ne. refl))
              (λ e. inr (
                resp,
                some',
                ==→eq resp.status_code 200 (ground arith),
                subst
                    (λ g. IsEnd resp full_path dest fs (store_body los.os g resp full_path dest fs))
                    (sym calm)
                    (subst (IsEnd resp full_path dest fs)
                      (sym (store_body-quiet los.os resp full_path dest fs))
                      (store_body_lem los.os resp full_path dest fs differ)),
              )))
    ]
  where
    full_path : Text
    full_path = path_join download_path (layer_file_name req.digest)

    P : Bool × Files → Type 0
    P (done, fs') =
        ((done ≡ false) × ((j : Text) → full_path ≢ j → lookup j fs' ≡ lookup j fs))
        ⊎ (resp : Response) × (send req ≡ some resp)
          × (resp.status_code ≡ 200)
          × IsEnd resp full_path dest fs (done, fs')
