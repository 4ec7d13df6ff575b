-- ===== src/Scan.antt =====
-- pkg/ociscan/scanner.go: the layers of the container runtime, which the node reports and hands out.
-- containerd, the walks of the file system and the operating system are parameters.
pub mod Reports
pub mod Files
pub mod Tests
use Prim.Native.Nat.{ℕ}
use accelerboat.Base.{
  ◌≡◌, Bool, true, false, not, ◌||◌, Option, none, some, List, [], ◌∷◌, ◌++◌, if◌then◌else◌,
}
use accelerboat.Base.Int.{ℤ}
use accelerboat.Base.Keys.{mem, add_key, lookup, insert, delete}
use accelerboat.Base.Text.{Text, codes, text_eq, has_suffix, trim_prefix, trim_suffix}
use accelerboat.Store.{Redis, RedisStore, containerd, type_name, save_oci_layer, delete_oci_layer}
use accelerboat.Layer.Download.{Os, path_join, layer_file_name, rename}
use accelerboat.Layer.Download as Download

-- `has_cc` says whether there is a containerd client, and `containerd_layers` holds the keys of
-- containerdLayers.
pub record ScanHandler (S : Type 0) : Type 0 where
  pub has_cc : Bool
  pub containerd_layers : List Text
  pub store : RedisStore S

-- Parse, on the digests that the walk of the content store met: the keys of its map, which are the
-- values too.
unfoldable pub parse : List Text → List Text
parse [] = []
parse (d ∷ ds) = add_key (trim_prefix d (codes "sha256:")) (parse ds)

module _ (redis : Redis) where
  unfoldable pub save_each : List Text → ℕ → RedisStore redis.Server → RedisStore redis.Server
  save_each [] now r = r
  save_each (k ∷ ks) now r =
      save_each ks now
        (elim (save_oci_layer redis containerd k k now r) [ none ↦ r | some r' ↦ r' ])

  -- The layers that are known and not in the walk.
  unfoldable pub delete_each :
      List Text → List Text → RedisStore redis.Server → RedisStore redis.Server
  delete_each layers [] r = r
  delete_each layers (k ∷ ks) r = delete_each layers ks (
      if mem k layers
      then r
      else elim (delete_oci_layer redis containerd k r) [ none ↦ r | some r' ↦ r' ])

  unfoldable pub report_oci_layers :
      List Text → ℕ → ScanHandler redis.Server → ScanHandler redis.Server
  unfolding parse save_each delete_each
  report_oci_layers digests now s =
      let layers = parse digests in
      if s.has_cc
      then record s {
        store = delete_each layers s.containerd_layers (save_each layers now s.store);
      }
      else s

  -- The reports of TickerReport, each with the digests of its walk.
  unfoldable pub reports :
      List (List Text × ℕ) → ScanHandler redis.Server → ScanHandler redis.Server
  unfolding report_oci_layers
  reports [] s = s
  reports ((digests, now) ∷ rs) s = reports rs (report_oci_layers digests now s)

-- A content of containerd as ReaderAt gives it: its bytes, and whether the copy reads all of them.
pub record Content : Type 0 where
  pub bytes : Text
  pub is_complete : Bool

unfoldable pub full_digest : Text → Text
full_digest layer = codes "sha256:" ++ trim_prefix layer (codes "sha256:")

-- `info` and `reader_at` are the calls of the content store.
module _ (info : Text → Bool) (reader_at : Text → Option Content) (os : Os)
    (download_path oci_path : Text) where
  unfoldable pub handle_containerd_copy : Text → Download.Files → Option Text × Download.Files
  unfolding full_digest
  handle_containerd_copy layer fs =
      let full = full_digest layer in
      let target_file = path_join download_path (layer_file_name full) in
      let result = path_join oci_path (layer_file_name full) in
      if not (info full) then (none, fs) else elim (reader_at full) [
        | none ↦ (none, fs)
        | some c ↦
            let removed = delete target_file fs in
            let written = insert target_file c.bytes removed in
            if not (os.can_create target_file)
            then (none, removed)
            else if not c.is_complete
            then (none, written)
            else if not (os.can_rename target_file result)
            then (none, written)
            else (some result, rename target_file result written)
      ]

  unfoldable pub generate_layer : Bool → Text → Text → Download.Files → Option Text × Download.Files
  unfolding handle_containerd_copy
  generate_layer has_cc oci_type layer fs =
      if not (text_eq oci_type (type_name containerd))
      then (none, fs)
      else if has_cc
      then handle_containerd_copy layer fs
      else (none, fs)

pub record ImageLayerInfo : Type 0 where
  pub digest : Text
  pub size : ℤ
  pub local_path : Option Text

pub record ImageInfo : Type 0 where
  pub name : Text
  pub target : Text
  pub layers : List ImageLayerInfo

pub record OciPathLayerInfo : Type 0 where
  pub digest : Text
  pub size : ℤ
  pub path : Text

-- What filepath.WalkDir calls its function with; `size` is none where Info fails.
pub record Entry : Type 0 where
  pub path : Text
  pub name : Text
  pub failed : Bool
  pub is_dir : Bool
  pub size : Option ℤ

-- An image of containerd: its manifest's layers, none where there is no manifest.
pub record Image : Type 0 where
  pub name : Text
  pub target : Text
  pub manifest : Option (List (Text × ℤ))

abbrev pub is_layer_file : Entry → Bool
is_layer_file e = not (e.failed || (e.is_dir || not (has_suffix e.name (codes ".tar.gzip"))))

unfoldable pub entry_digest : Entry → Text
unfolding full_digest
entry_digest e = full_digest (trim_suffix e.name (codes ".tar.gzip"))

unfoldable pub oci_path_layers : List Entry → List (Text × Text) → List (Text × Text)
unfolding entry_digest
oci_path_layers [] m = m
oci_path_layers (e ∷ es) m =
    oci_path_layers es (if is_layer_file e then insert (entry_digest e) e.path m else m)

unfoldable pub image_layers : List (Text × Text) → List (Text × ℤ) → List ImageLayerInfo
image_layers m [] = []
image_layers m ((d, size) ∷ ds) =
    record { digest = d; size = size; local_path = lookup d m } ∷ image_layers m ds

unfoldable pub list_images : List (Text × Text) → List Image → List ImageInfo
unfolding image_layers
list_images m [] = []
list_images m (img ∷ imgs) =
    let rest = list_images m imgs in
    elim img.manifest [
      | none ↦ rest
      | some ds ↦ record { name = img.name; target = img.target; layers = image_layers m ds } ∷ rest
    ]

-- `images` is ListImages, none for an error.
unfoldable pub list_managed_images :
    Bool → Option (List Image) → Text → List Entry → Option (List ImageInfo)
unfolding list_images oci_path_layers
list_managed_images has_cc images oci_path entries =
    let m = if text_eq oci_path [] then [] else oci_path_layers entries [] in
    if not has_cc
    then some []
    else elim images [ none ↦ none | some imgs ↦ some (list_images m imgs) ]

unfoldable pub list_oci_path_layers : Text → List Entry → List OciPathLayerInfo
unfolding entry_digest
list_oci_path_layers oci_path [] = []
list_oci_path_layers oci_path (e ∷ es) =
    let rest = list_oci_path_layers oci_path es in
    if text_eq oci_path [] || not (is_layer_file e) then rest else elim e.size [
      | none ↦ rest
      | some size ↦ record { digest = entry_digest e; size = size; path = e.path } ∷ rest
    ]
