-- ===== src/Store/Keys.antt =====
-- pkg/store/redis.go: the texts of the keys and values, written and read.
use Prim.Native.Nat.{ℕ, ◌+◌, ◌-◌, ◌^◌, ◌≤◌, ◌<◌}
use accelerboat.Base.{◌≡◌, refl, ap, inl, inr, false, some, List, [], ◌∷◌, arith, Option-cases}
use accelerboat.Base.Int.{pos, ltb_ℤ}
use accelerboat.Base.Text.{Text, text_eq, text_eq→eq, Lacks}
use accelerboat.Base.Text.Split.{split, split_pair, split_two}
use accelerboat.Base.Text.Decimal.{print_nat, print_nat-Lacks, parse_int-print_nat}
use accelerboat.Store.{
  LayerType, dockerd, containerd, static_file, type_name, LayerLocatedInfo, layer_key,
  build_layer_value, two_parts, parse_layer_value, type_of, sub_int64, read_field,
}

-- A path without ':' and a time in the range of int64 are read back from the value that holds them.
pub parse-build_layer_value :
    (file_path : Text) (now : ℕ)
    → Lacks b':' file_path
    → now < 2 ^ 63
    → parse_layer_value (build_layer_value file_path now) ≡ some (file_path, pos now)
unfolding parse_layer_value build_layer_value two_parts
parse-build_layer_value file_path now h lt = ground (
  arith,
  ap two_parts
      (split_pair file_path (print_nat now) b':' h (print_nat-Lacks now b':' (omega arith))),
  parse_int-print_nat now lt,
)

type_of-type_name : (t : LayerType) → type_of (type_name t) ≡ some t
unfolding type_of text_eq
type_of-type_name dockerd = refl
type_of-type_name containerd = refl
type_of-type_name static_file = refl

type_name-Lacks : (t : LayerType) → Lacks b'/' (type_name t)
type_name-Lacks dockerd = omega arith
type_name-Lacks containerd = omega arith
type_name-Lacks static_file = omega arith

type_name-type_of : (name : Text) (t : LayerType) → type_of name ≡ some t → name ≡ type_name t
unfolding type_of
type_name-type_of name t h = ground (
  arith,
  text_eq→eq name (type_name static_file),
  text_eq→eq name (type_name containerd),
  text_eq→eq name (type_name dockerd),
)

sub_int64_nat : (a b : ℕ) → b ≤ a → a < 2 ^ 63 → sub_int64 (pos a) (pos b) ≡ pos (a - b)
unfolding sub_int64
sub_int64_nat a b le lt = ground arith

abbrev pub fresh_info : Text → LayerType → Text → Text → ℕ → LayerLocatedInfo
fresh_info layer t located file_path saved = record {
  layer = layer;
  type = t;
  located = located;
  path = file_path;
  ts = pos saved;
  refer = pos 0;
}

-- The field that a node saves is read back, by a clock that is at most 120 seconds ahead.
pub read_field-saved :
    (layer : Text) (t : LayerType) (located file_path : Text) (saved now : ℕ)
    → Lacks b'/' located
    → Lacks b':' file_path
    → saved ≤ now
    → now ≤ saved + 120
    → now < 2 ^ 63
    → read_field layer now (layer_key located t, build_layer_value file_path saved)
      ≡ some (fresh_info layer t located file_path saved)
unfolding read_field layer_key two_parts
read_field-saved layer t located file_path saved now hl hp le near lt = ground (
  arith,
  ap two_parts (split_pair located (type_name t) b'/' hl (type_name-Lacks t)),
  type_of-type_name t,
  parse-build_layer_value file_path saved hp (omega arith),
  sub_int64_nat now saved le lt,
)

two_parts_eq : (ps : List Text) (a b : Text) → two_parts ps ≡ some (a, b) → ps ≡ a ∷ b ∷ []
unfolding two_parts
two_parts_eq [] a b e = cc
two_parts_eq (p ∷ []) a b e = cc
two_parts_eq (p ∷ q ∷ []) a b e = cc
two_parts_eq (p ∷ q ∷ r ∷ ps) a b e = cc

-- A field that is read holds the key of the node and type that it is read as.
pub read_field-key :
    (layer : Text) (now : ℕ) (k v : Text) (info : LayerLocatedInfo)
    → read_field layer now (k, v) ≡ some info
    → (k ≡ layer_key info.located info.type)
      × (info.layer ≡ layer)
      × (ltb_ℤ (pos 120) (sub_int64 (pos now) info.ts) ≡ false)
unfolding read_field layer_key
read_field-key layer now k v info h = elim (Option-cases (two_parts (split k b'/'))) [
  | inl e ↦ absurd (cc (rw (e, read_field) at h))
  | inr ((located, key_type), e) ↦ ground (
    arith,
    e,
    type_name-type_of key_type info.type,
    split_two k located key_type b'/' (two_parts_eq (split k b'/') located key_type e),
  )
]
