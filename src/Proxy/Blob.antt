-- ===== src/Proxy/Blob.antt =====
-- proxy.go: what the client of a blob gets.
use accelerboat.Base.{
  ◌≡◌, refl, sym, ap, ◌∙◌, ◌⊎◌, inl, inr, Bool, true, false, not, Option, none, some, ◌++◌, if_ind,
  opt_else_ind, subst, some_inj,
}
use accelerboat.Base.Keys.{lookup}
use accelerboat.Base.Text.{Text}
use accelerboat.Layer.Cached.{DownloadLayerResponse}
use accelerboat.Layer.Download.{Files, path_join, layer_file_name}
use accelerboat.Proxy.{
  Storage, Node, World, http_serve_file, stat_in, check_local_layer, download_layer_from_local,
  handle_layer_download, get_from_cluster, handle_get_blob, serve_blob,
}

-- A file of the layer, in one of the three directories that checkLocalLayer looks in.
abbrev pub IsLocal : Storage → Text → Files → Text → Text → Type 0
IsLocal cfg digest fs p bytes =
    (lookup p fs ≡ some bytes)
    × ((p ≡ path_join cfg.transfer_path (layer_file_name digest))
        ⊎ (p ≡ path_join cfg.small_file_path (layer_file_name digest))
        ⊎ (p ≡ path_join cfg.oci_path (layer_file_name digest)))

stat_in_lem :
    (dir digest : Text) (fs : Files) (p bytes : Text)
    → stat_in dir digest fs ≡ some (p, bytes)
    → (p ≡ path_join dir (layer_file_name digest)) × (lookup p fs ≡ some bytes)
stat_in_lem dir digest fs p bytes =
    let path = path_join dir (layer_file_name digest) in
    opt_else_ind (λ o. o ≡ some (p, bytes) → (p ≡ path) × (lookup p fs ≡ some bytes))
      (lookup path fs) none _ (λ n e. absurd cc)
      (λ x got e.
        let same : path ≡ p = ap (λ (q : Text × Text). q.0) (some_inj e) in
        (
          sym same,
          ap (λ q. lookup q fs) (sym same) ∙ got ∙ ap (λ (q : Text × Text). some q.1) (some_inj e),
        ))

check_local_layer_lem :
    (cfg : Storage) (digest : Text) (fs : Files) (p bytes : Text)
    → check_local_layer cfg digest fs ≡ some (p, bytes)
    → IsLocal cfg digest fs p bytes
unfolding check_local_layer
check_local_layer_lem cfg digest fs p bytes =
    opt_else_ind P (stat_in cfg.transfer_path digest fs) _ _
      (λ n.
        opt_else_ind P (stat_in cfg.small_file_path digest fs) _ _
          (λ k e.
            let (at, got) = stat_in_lem cfg.oci_path digest fs p bytes e in (got, inr (inr at)))
          (λ x k e.
            let (at, got) = stat_in_lem cfg.small_file_path digest fs p bytes (k ∙ e) in
            (got, inr (inl at))))
      (λ x k e.
        let (at, got) = stat_in_lem cfg.transfer_path digest fs p bytes (k ∙ e) in (got, inl at))
  where
    P : Option (Text × Text) → Type 0
    P o = o ≡ some (p, bytes) → IsLocal cfg digest fs p bytes

-- The client got one whole local file of the layer.
abbrev pub IsServed : Storage → Text → Text → Node → Type 0
IsServed cfg digest out n =
    (p : Text) × (bytes : Text) × IsLocal cfg digest n.files p bytes × (n.out ≡ out ++ bytes)

module _ (cfg : Storage) (w : World) (sends : (p bytes : Text) → w.send p bytes ≡ bytes)
    (copies : (p bytes : Text) → w.copy p bytes ≡ (bytes, true)) where
  pub http_serve_file_lem : (p bytes : Text) → http_serve_file w p bytes ≡ (bytes, true)
  unfolding http_serve_file
  http_serve_file_lem p bytes =
      if_ind (λ r. r ≡ (bytes, true)) (not (w.can_open p)) _ _
        (λ h. ap (λ x. (x, true)) (sends p bytes)) (λ h. copies p bytes)

  -- The client got a file, or nothing.
  abbrev Ends : Text → Text → Bool × Node → Type 0
  Ends digest out (ok, n) = ((ok ≡ true) × IsServed cfg digest out n) ⊎ (ok ≡ false) × (n.out ≡ out)

  from_local-Ends :
      (digest : Text) (n : Node) → Ends digest n.out (download_layer_from_local cfg w digest n)
  unfolding download_layer_from_local
  from_local-Ends digest n =
      opt_else_ind (Ends digest n.out) (check_local_layer cfg digest n.files) _ _
        (λ e. inr (refl, refl))
        (λ found e.
          let (p, bytes) = found in
          inl (
            ap (λ (q : Text × Bool). q.1) (http_serve_file_lem p bytes),
            (
              p,
              bytes,
              check_local_layer_lem cfg digest n.files p bytes e,
              ap (λ (q : Text × Bool). n.out ++ q.0) (http_serve_file_lem p bytes),
            ),
          ))

  Ends-out : (digest a b : Text) (r : Bool × Node) → a ≡ b → Ends digest a r → Ends digest b r
  Ends-out digest a b r e = subst (λ o. Ends digest o r) e

  cluster-Ends :
      (resp : DownloadLayerResponse) (digest : Text) (n : Node)
      → Ends digest n.out (get_from_cluster cfg w resp digest n)
  unfolding get_from_cluster
  cluster-Ends resp digest n =
      let n1 = (download_layer_from_local cfg w digest n).1 in
      let got = handle_layer_download cfg w resp digest n1.files in
      let n2 = record n1 { files = got.1 } in
      elim (from_local-Ends digest n) [
        | inl served ↦
            if_ind (Ends digest n.out) (download_layer_from_local cfg w digest n).0 _ _
              (λ h. inl (refl, served.1)) (λ h. absurd cc)
        | inr none_there ↦
            if_ind (Ends digest n.out) (download_layer_from_local cfg w digest n).0 _ _
              (λ h. absurd cc)
              (λ h.
                if_ind (Ends digest n.out) (not got.0) _ _ (λ k. inr (refl, none_there.1))
                  (λ k.
                    Ends-out digest n1.out n.out (download_layer_from_local cfg w digest n2)
                      none_there.1 (from_local-Ends digest n2)))
      ]

  get_blob-Ends : (digest : Text) (n : Node) → Ends digest n.out (handle_get_blob cfg w digest n)
  unfolding handle_get_blob
  get_blob-Ends digest n =
      opt_else_ind (Ends digest n.out) (check_local_layer cfg digest n.files) _ _
        (λ e.
          opt_else_ind (Ends digest n.out) (w.ask digest n.files).0 _ _ (λ k. inr (refl, refl))
            (λ resp k. cluster-Ends resp digest _))
        (λ found e. from_local-Ends digest n)

  -- When a local file that is there is always served whole, the client of a blob gets exactly one whole
  -- file of the layer from one of the three directories that checkLocalLayer looks in, or, with nothing before it, the answer of the
  -- original registry: whatever the master answers and however the download from the nodes ends.
  pub serve_blob_lem :
      (digest : Text) (n : Node)
      → let n' = serve_blob cfg w digest n in
        IsServed cfg digest n.out n' ⊎ (n'.out ≡ n.out ++ w.reversed digest)
  unfolding serve_blob
  serve_blob_lem digest n =
      if_ind P (handle_get_blob cfg w digest n).0 _ _
        (λ h. elim (get_blob-Ends digest n) [ inl served ↦ inl served.1 | inr failed ↦ absurd cc ])
        (λ h. elim (get_blob-Ends digest n) [
          | inl served ↦ absurd cc
          | inr failed ↦ inr (ap (λ o. o ++ w.reversed digest) failed.1)
        ])
    where
      P : Node → Type 0
      P n' = IsServed cfg digest n.out n' ⊎ (n'.out ≡ n.out ++ w.reversed digest)
