-- ===== src/Scan/Tests.antt =====
-- pkg/ociscan/scanner.go: two reports, and a layer of containerd.
use Prim.Native.Nat.{ℕ}
use accelerboat.Base.{
  ◌≡◌, ◌≢◌, refl, ap, ◌⊎◌, true, Option, none, some, List, [], ◌∷◌, arith, if◌then◌else◌,
}
use accelerboat.Base.Text.{Text, codes, text_eq}
use accelerboat.Base.Keys.{lookup}
use accelerboat.Store.{containerd, type_name, layer_key}
use accelerboat.Store.Memory.{memory, Log}
use accelerboat.Layer.Download.{Os, path_join, layer_file_name}
use accelerboat.Scan.{ScanHandler, reports, Content, full_digest, generate_layer}
use accelerboat.Scan.Reports.{reported, reports_lem}
use accelerboat.Scan.Files.{generate_layer_lem}

abbrev handler : ScanHandler Log
handler = record {
  has_cc = true;
  containerd_layers = [];
  store = record { address = codes "10.0.0.1"; server = []; local_cache = [] };
}

-- The second walk meets the layer no more.
abbrev walks : List (List Text × ℕ)
walks = (codes "sha256:ab" ∷ codes "sha256:cd" ∷ [], 1000) ∷ (codes "sha256:cd" ∷ [], 1060) ∷ []

sets : (l k v : Text) (s : Log) → memory.hset l k v s ≢ none
sets l k v s e = cc

reports_lem_example :
    memory.field
      (reports memory walks handler).store.server
      (codes "ab")
      (layer_key (codes "10.0.0.1") containerd)
    ≡ (if text_eq
          (layer_key (codes "10.0.0.1") containerd)
          (layer_key (codes "10.0.0.1") containerd)
        then reported walks (codes "ab") (
            memory.field handler.store.server
              (codes "ab")
              (layer_key (codes "10.0.0.1") containerd))
        else memory.field handler.store.server
            (codes "ab")
            (layer_key (codes "10.0.0.1") containerd))
reports_lem_example =
    reports_lem memory (codes "10.0.0.1") sets walks handler refl refl refl (codes "ab")
      (layer_key (codes "10.0.0.1") containerd)

abbrev layer : Text
layer = codes "sha256:ab"

abbrev content : Text → Option Content
content d = some (record { bytes = codes "AB"; is_complete = true })

abbrev os : Os
os = record { can_create = λ p. true; can_rename = λ p q. true }

second : Text → ℕ
second [] = 0
second (x ∷ []) = 0
second (x ∷ y ∷ s) = y

paths_differ :
    path_join (codes "/d") (layer_file_name (full_digest layer))
    ≢ path_join (codes "/o") (layer_file_name (full_digest layer))
unfolding path_join second
paths_differ e = absurd (omega (arith, ap second e))

generate_layer_lem_example :
    let (r, fs') =
      generate_layer
        (λ d. true)
        content
        os
        (codes "/d")
        (codes "/o")
        true
        (codes "CONTAINERD")
        layer
        [] in
    let target = path_join (codes "/d") (layer_file_name (full_digest layer)) in
    let result = path_join (codes "/o") (layer_file_name (full_digest layer)) in
    ((j : Text) → target ≢ j → result ≢ j → lookup j fs' ≡ lookup {V = Text} j [])
    × (((r ≡ none) × (lookup result fs' ≡ lookup {V = Text} result []))
        ⊎ (c : Content) × (true ≡ true)
          × (codes "CONTAINERD" ≡ type_name containerd)
          × (content (full_digest layer) ≡ some c)
          × (true ≡ true)
          × (c.is_complete ≡ true)
          × (r ≡ some result)
          × (lookup result fs' ≡ some c.bytes))
generate_layer_lem_example =
    generate_layer_lem (λ d. true) content os (codes "/d") (codes "/o") layer [] paths_differ true
      (codes "CONTAINERD")
