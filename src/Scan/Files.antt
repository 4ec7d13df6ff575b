-- ===== src/Scan/Files.antt =====
-- scanner.go: the layer that GenerateLayer hands out, and the lists of layers.
use accelerboat.Base.{
  ◌≡◌, ◌≢◌, refl, ◌⊎◌, inl, inr, Bool, true, not, Option, none, some, arith, if◌then◌else◌, if_ind,
  opt_else_ind,
}
use accelerboat.Base.Keys.{lookup, insert, delete, lookup-insert, lookup-delete}
use accelerboat.Base.Text.{Text, text_eq, text_eq_iff, text_eq_refl}
use accelerboat.Store.{containerd, type_name}
use accelerboat.Layer.Download.{Os, path_join, layer_file_name, rename}
use accelerboat.Layer.Download as Download
use accelerboat.Scan.{Content, full_digest, handle_containerd_copy, generate_layer}

renamed :
    (from to body : Text) (fs : Download.Files) (j : Text)
    → lookup j (rename from to (insert from body (delete from fs)))
      ≡ (if text_eq to j then some body else if text_eq from j then none else lookup j fs)
unfolding rename
renamed from to body fs j = ground (
  arith,
  lookup-insert from from body (delete from fs),
  text_eq_refl from,
  lookup-insert to j body (delete from (insert from body (delete from fs))),
  lookup-delete from j (insert from body (delete from fs)),
  lookup-insert from j body (delete from fs),
  lookup-delete from j fs,
)

module _ (info : Text → Bool) (reader_at : Text → Option Content) (os : Os)
    (download_path oci_path layer : Text) (fs : Download.Files)
    (differ : path_join download_path (layer_file_name (full_digest layer))
      ≢ path_join oci_path (layer_file_name (full_digest layer))) where
  abbrev target_file : Text
  target_file = path_join download_path (layer_file_name (full_digest layer))

  abbrev result : Text
  result = path_join oci_path (layer_file_name (full_digest layer))

  abbrev Given : Option Text × Download.Files → Type 0
  Given (r, fs') =
      ((j : Text) → target_file ≢ j → result ≢ j → lookup j fs' ≡ lookup j fs)
      × (((r ≡ none) × (lookup result fs' ≡ lookup result fs))
          ⊎ (c : Content) × (reader_at (full_digest layer) ≡ some c)
            × (info (full_digest layer) ≡ true)
            × (c.is_complete ≡ true)
            × (r ≡ some result)
            × (lookup result fs' ≡ some c.bytes))

  kept_lem :
      (bytes j : Text)
      → target_file ≢ j
      → lookup j (insert target_file bytes (delete target_file fs)) ≡ lookup j fs
  kept_lem bytes j ne = ground (
    arith,
    lookup-insert target_file j bytes (delete target_file fs),
    lookup-delete target_file j fs,
    text_eq_iff target_file j,
  )

  copy-Given : Given (handle_containerd_copy info reader_at os download_path oci_path layer fs)
  unfolding handle_containerd_copy
  copy-Given =
      if_ind Given (not (info (full_digest layer))) _ _ (λ h. (λ j a b. refl, inl (refl, refl)))
        (λ known.
          opt_else_ind Given (reader_at (full_digest layer)) _ _
            (λ e. (λ j a b. refl, inl (refl, refl)))
            (λ c e.
              if_ind Given (not (os.can_create target_file)) _ _
                (λ h. (
                  λ j a b.
                      ground (arith, lookup-delete target_file j fs, text_eq_iff target_file j),
                  inl (
                    refl,
                    ground (
                      arith,
                      lookup-delete target_file result fs,
                      text_eq_iff target_file result,
                    ),
                  ),
                ))
                (λ created.
                  if_ind Given (not c.is_complete) _ _
                    (λ h.
                      (λ j a b. kept_lem c.bytes j a, inl (refl, kept_lem c.bytes result differ)))
                    (λ whole.
                      if_ind Given (not (os.can_rename target_file result)) _ _
                        (λ h. (
                          λ j a b. kept_lem c.bytes j a,
                          inl (refl, kept_lem c.bytes result differ),
                        ))
                        (λ moved. (
                          λ j a b. ground (
                            arith,
                            renamed target_file result c.bytes fs j,
                            text_eq_iff target_file j,
                            text_eq_iff result j,
                          ),
                          inr (
                            c,
                            e,
                            ground arith,
                            ground arith,
                            refl,
                            ground (
                              arith,
                              renamed target_file result c.bytes fs result,
                              text_eq_refl result,
                            ),
                          ),
                        ))))))

  -- GenerateLayer changes no file but its download and the result's. It fails, and the result's path is
  -- as it was; or it answers with the path of the layer among the files of the container runtime, which
  -- then holds the whole content that containerd knows and gives for the digest, and the request was
  -- for a layer of containerd and there is a client. The result is not the file of the download.
  pub generate_layer_lem :
      (has_cc : Bool) (oci_type : Text)
      → let (r, fs') =
          generate_layer info reader_at os download_path oci_path has_cc oci_type layer fs in
        ((j : Text) → target_file ≢ j → result ≢ j → lookup j fs' ≡ lookup j fs)
        × (((r ≡ none) × (lookup result fs' ≡ lookup result fs))
            ⊎ (c : Content) × (has_cc ≡ true)
              × (oci_type ≡ type_name containerd)
              × (reader_at (full_digest layer) ≡ some c)
              × (info (full_digest layer) ≡ true)
              × (c.is_complete ≡ true)
              × (r ≡ some result)
              × (lookup result fs' ≡ some c.bytes))
  unfolding generate_layer
  generate_layer_lem has_cc oci_type =
      if_ind Q (not (text_eq oci_type (type_name containerd))) _ _
        (λ h. (λ j a b. refl, inl (refl, refl)))
        (λ typed.
          if_ind Q has_cc _ _
            (λ there. (
              copy-Given.0,
              elim copy-Given.1 [
                | inl failed ↦ inl failed
                | inr (c, e, known, whole, r, at) ↦ inr (
                  c,
                  there,
                  (text_eq_iff oci_type (type_name containerd)).0 (ground arith),
                  e,
                  known,
                  whole,
                  r,
                  at,
                )
              ],
            ))
            (λ h. (λ j a b. refl, inl (refl, refl))))
    where
      Q : Option Text × Download.Files → Type 0
      Q (r, fs') =
          ((j : Text) → target_file ≢ j → result ≢ j → lookup j fs' ≡ lookup j fs)
          × (((r ≡ none) × (lookup result fs' ≡ lookup result fs))
              ⊎ (c : Content) × (has_cc ≡ true)
                × (oci_type ≡ type_name containerd)
                × (reader_at (full_digest layer) ≡ some c)
                × (info (full_digest layer) ≡ true)
                × (c.is_complete ≡ true)
                × (r ≡ some result)
                × (lookup result fs' ≡ some c.bytes))
