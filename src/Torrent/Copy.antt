-- ===== src/Torrent/Copy.antt =====
-- torrent.go, file.go: what a torrent that was downloaded leaves in the files.
use Prim.Native.Nat.{◌*◌, ◌≤◌}
use accelerboat.Base.{
  ◌≡◌, ◌≢◌, refl, sym, ap, ◌∙◌, Bool, true, false, not, some, [], arith, ltb, length, if_ind,
  opt_else_ind, some_inj,
}
use accelerboat.Base.Keys.{lookup, insert, delete, lookup-insert, lookup-delete}
use accelerboat.Base.Text.{Text, text_eq_iff, text_eq_refl}
use accelerboat.Layer.Download.{Files, path_join, layer_file_name}
use accelerboat.Torrent.{Disk, copy_file, is_sparse_file, handle_download_torrent}

module _ (disk : Disk) where
  -- No file but the target is changed, and a success writes what io.Copy did with the whole source.
  abbrev pub IsCopied : Text → Text → Files → Bool × Files → Type 0
  IsCopied source target fs (ok, fs') =
      ((j : Text) → target ≢ j → lookup j fs' ≡ lookup j fs)
      × (ok ≡ true
          → (bytes : Text) × (lookup source fs ≡ some bytes)
            × ((disk.copied bytes).1 ≡ true)
            × (lookup target fs' ≡ some (disk.copied bytes).0))

  pub copy_file_lem :
      (source target : Text) (fs : Files)
      → source ≢ target
      → IsCopied source target fs (copy_file disk source target fs)
  unfolding copy_file
  copy_file_lem source target fs differ =
      if_ind P (not (disk.can_create target)) _ _
        (λ h.
          (λ j ne. ground (arith, lookup-delete target j fs, text_eq_iff target j), λ q. absurd cc))
        (λ h.
          if_ind P (not (disk.can_open source)) _ _ (λ k. (created_lem, λ q. absurd cc))
            (λ k.
              opt_else_ind P (lookup source created) _ _ (λ e. (created_lem, λ q. absurd cc))
                (λ bytes e. (
                  λ j ne. ground (
                    arith,
                    created_lem j,
                    lookup-insert target j (disk.copied bytes).0 created,
                    text_eq_iff target j,
                  ),
                  λ q. (
                    bytes,
                    sym (created_lem source (λ z. differ (sym z))) ∙ e,
                    q,
                    ground (
                      arith,
                      lookup-insert target target (disk.copied bytes).0 created,
                      text_eq_refl target,
                    ),
                  ),
                ))))
    where
      created : Files
      created = insert target [] (delete target fs)

      P : Bool × Files → Type 0
      P r = IsCopied source target fs r

      created_lem : (j : Text) → target ≢ j → lookup j created ≡ lookup j fs
      created_lem j ne = ground (
        arith,
        lookup-insert target j [] (delete target fs),
        lookup-delete target j fs,
        text_eq_iff target j,
      )

  dense_lem :
      (file : Text) (fs : Files) (bytes : Text) (sparse : Bool)
      → lookup file fs ≡ some bytes
      → is_sparse_file disk file fs ≡ some sparse
      → sparse ≡ false
      → length bytes ≤ disk.blocks file * 512 * 10
  unfolding is_sparse_file
  dense_lem file fs bytes sparse there e s =
      let whether : some (ltb (disk.blocks file * 512 * 10) (length bytes)) ≡ some sparse =
        rw (there, is_sparse_file) at e in
      ground (arith, some_inj whether)

  -- handleDownloadTorrent changes no file but the target. It succeeds only after a download that did,
  -- and then the target holds the whole file of the torrent, which has at least a tenth of its size on
  -- the disk. io.Copy without an error writes all, and the target is not the torrent's own file.
  pub handle_download_torrent_lem :
      (torrent_path digest target : Text) (downloaded : Bool) (fs : Files)
      → ((bytes : Text) → (disk.copied bytes).1 ≡ true → (disk.copied bytes).0 ≡ bytes)
      → path_join torrent_path (layer_file_name digest) ≢ target
      → let (ok, fs') = handle_download_torrent disk torrent_path digest target (downloaded, fs) in
        let torrent_file = path_join torrent_path (layer_file_name digest) in
        ((j : Text) → target ≢ j → lookup j fs' ≡ lookup j fs)
        × (ok ≡ true
            → (bytes : Text) × (downloaded ≡ true)
              × (lookup torrent_file fs ≡ some bytes)
              × (length bytes ≤ disk.blocks torrent_file * 512 * 10)
              × (lookup target fs' ≡ some bytes))
  unfolding handle_download_torrent
  handle_download_torrent_lem torrent_path digest target downloaded fs whole differ =
      if_ind P (not downloaded) _ _ (λ h. (λ j ne. refl, λ q. absurd cc))
        (λ h.
          opt_else_ind P (is_sparse_file disk torrent_file fs) _ _
            (λ e. (λ j ne. refl, λ q. absurd cc))
            (λ sparse e.
              if_ind P sparse _ _ (λ s. (λ j ne. refl, λ q. absurd cc))
                (λ s.
                  let (others, copied) = copy_file_lem torrent_file target fs differ in
                  (
                    others,
                    λ q.
                        let (bytes, there, good, at) = copied q in
                        (
                          bytes,
                          ground arith,
                          there,
                          dense_lem torrent_file fs bytes sparse there e s,
                          at ∙ ap (λ b. some b) (whole bytes good),
                        ),
                  ))))
    where
      torrent_file : Text
      torrent_file = path_join torrent_path (layer_file_name digest)

      P : Bool × Files → Type 0
      P (ok, fs') =
          ((j : Text) → target ≢ j → lookup j fs' ≡ lookup j fs)
          × (ok ≡ true
              → (bytes : Text) × (downloaded ≡ true)
                × (lookup torrent_file fs ≡ some bytes)
                × (length bytes ≤ disk.blocks torrent_file * 512 * 10)
                × (lookup target fs' ≡ some bytes))
