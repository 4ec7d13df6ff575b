-- ===== src/Layer/Download/Ticks.antt =====
-- layer.go: what a success of requestDownloadLayer means when ticks of its progress goroutine set err.
use accelerboat.Base.{
  ◌≡◌, sym, ap, ◌⊎◌, inl, inr, Bool, true, false, not, Option, none, some, arith, ◌==◌,
  if◌then◌else◌, Option-cases, if_ind, subst, ==→eq,
}
use accelerboat.Base.Keys.{lookup, insert, delete}
use accelerboat.Base.Text.{Text, text_eq_refl}
use accelerboat.Layer.Cached.{DownloadLayerRequest}
use accelerboat.Layer.Download.{
  Files, Response, Os, Progress, read_err, LayerOs, path_join, layer_file_name, rename, store_body,
  request_download_layer,
}
use accelerboat.Layer.Download.Stored.{written_lem, renamed_lem, request_failed, request_answered}

-- A tick whose Stat succeeds sets err between an assignment and a read of it.
abbrev pub IsCleared : Progress → Type 0
IsCleared p =
    (p.after_copy ≡ some false)
    ⊎ (p.in_remove ≡ some false)
    ⊎ (p.after_rename ≡ some false)
    ⊎ (p.in_wrap ≡ some false)

-- The destination holds the whole body.
abbrev pub IsWhole : Response → Text → Files → Type 0
IsWhole resp dest fs' = (resp.is_complete ≡ true) × (lookup dest fs' ≡ some resp.body)

read_err_lem :
    (tick : Option Bool) (err : Bool)
    → read_err tick err ≡ false
    → (tick ≡ some false) ⊎ (err ≡ false)
read_err_lem none err e = inr e
read_err_lem (some failed) err e = inl (ap (λ b. some b) e)

-- An error that is read as none was cleared by a tick.
hidden_lem : (tick : Option Bool) → not (read_err tick true) ≡ true → tick ≡ some false
hidden_lem tick e = elim (read_err_lem tick true (ground arith)) [ inl c ↦ c | inr t ↦ absurd cc ]

store_body-success :
    (os : Os) (progress : Progress) (resp : Response) (full_path dest : Text) (fs : Files)
    → let (done, fs') = store_body os progress resp full_path dest fs in
      done ≡ true → IsWhole resp dest fs' ⊎ IsCleared progress
unfolding store_body
store_body-success os progress resp full_path dest fs =
    if_ind P (not (os.can_create full_path)) _ _ (λ h e. absurd cc)
      (λ h.
        if_ind P (read_err progress.after_copy (not resp.is_complete)) _ _
          (λ k e. inr (inr (inl (hidden_lem progress.in_remove e))))
          (λ k.
            if_ind P (read_err progress.after_rename (not can_rename)) _ _
              (λ r e. inr (inr (inr (inr (hidden_lem progress.in_wrap e))))) (λ r e. stored k r)))
  where
    P : Bool × Files → Type 0
    P (done, fs') = done ≡ true → IsWhole resp dest fs' ⊎ IsCleared progress

    can_rename : Bool
    can_rename = os.can_rename full_path dest

    written : Files
    written = insert full_path resp.body (delete full_path fs)

    moved : Files
    moved = if can_rename then rename full_path dest written else written

    at_dest : can_rename ≡ true → lookup dest moved ≡ some resp.body
    at_dest can = ground (
      arith,
      can,
      text_eq_refl dest,
      renamed_lem full_path dest resp.body written dest
          (ground (arith, written_lem full_path resp.body fs full_path, text_eq_refl full_path)),
    )

    stored :
        read_err progress.after_copy (not resp.is_complete) ≡ false
        → read_err progress.after_rename (not can_rename) ≡ false
        → IsWhole resp dest moved ⊎ IsCleared progress
    stored k r = elim (read_err_lem progress.after_copy (not resp.is_complete) k) [
      | inl cleared ↦ inr (inl cleared)
      | inr whole ↦ elim (read_err_lem progress.after_rename (not can_rename) r) [
        | inl cleared ↦ inr (inr (inr (inl cleared)))
        | inr can ↦ inl (ground arith, at_dest (ground arith))
      ]
    ]

-- When requestDownloadLayer succeeds, the registry answered 200 and the destination holds the whole body
-- of the answer, or a tick of the progress goroutine whose Stat succeeds has set err between an
-- assignment and a read of it. The operating system and the ticks are arbitrary.
pub request_download_layer-success :
    (send : DownloadLayerRequest → Option Response) (los : LayerOs) (download_path : Text)
    (req : DownloadLayerRequest) (dest : Text) (fs : Files)
    → let (done, fs') = request_download_layer send los download_path req dest fs in
      done ≡ true
      → (resp : Response) × (send req ≡ some resp)
        × (resp.status_code ≡ 200)
        × (IsWhole resp dest fs' ⊎ IsCleared los.progress)
request_download_layer-success send los download_path req dest fs = elim (Option-cases (send req)) [
  | inl none_sent ↦
      subst P (sym (request_failed send los download_path req dest fs none_sent)) (λ e. absurd cc)
  | inr (resp, sent) ↦
      subst P (sym (request_answered send los download_path req dest fs resp sent)) (
        if_ind P (not (resp.status_code == 200)) _ _ (λ h e. absurd cc)
          (λ h e. (
            resp,
            sent,
            ==→eq resp.status_code 200 (ground arith),
            store_body-success los.os los.progress resp
                (path_join download_path (layer_file_name req.digest)) dest fs e,
          )))
]
  where
    P : Bool × Files → Type 0
    P (done, fs') =
        done ≡ true
        → (resp : Response) × (send req ≡ some resp)
          × (resp.status_code ≡ 200)
          × (IsWhole resp dest fs' ⊎ IsCleared los.progress)
