-- ===== src/Store.antt =====
-- pkg/store/redis.go: where the layers lie, kept in Redis. The Redis server is a parameter.
pub mod Keys
pub mod Saving
pub mod Query
pub mod Cleaning
pub mod Memory
pub mod Tests
use Prim.Native.Nat.{ℕ, ◌+◌, ◌-◌, ◌%◌, ◌^◌}
use accelerboat.Base.{
  ◌≡◌, Bool, true, false, ◌&&◌, Option, none, some, List, [], ◌∷◌, ◌++◌, ltb, if◌then◌else◌, take,
}
use accelerboat.Base.Int.{ℤ, pos, negsuc, ◌-ℤ◌, ltb_ℤ}
use accelerboat.Base.Sort.{In, sort_by}
use accelerboat.Base.Keys.{add_key}
use accelerboat.Base.Text.{Text, codes, text_eq}
use accelerboat.Base.Text.Split.{split}
use accelerboat.Base.Text.Decimal.{print_nat, parse_int}

pub data LayerType : Type 0 where
  dockerd containerd static_file : LayerType

abbrev pub type_name : LayerType → Text
type_name dockerd = codes "DOCKERD"
type_name containerd = codes "CONTAINERD"
type_name static_file = codes "STATIC"

pub record LayerLocatedInfo : Type 0 where
  pub layer : Text
  pub type : LayerType
  pub located : Text
  pub path : Text
  pub ts : ℤ
  pub refer : ℤ

-- The hash commands of Redis. `field` reads one field of one hash; `none` is an error.
pub record Redis : Type 1 where
  pub Server : Type 0
  pub hset : Text → Text → Text → Server → Option Server
  pub hdel : Text → Text → Server → Option Server
  pub hget_all : Text → Server → Option (List (Text × Text))
  pub field : Server → Text → Text → Option Text
  pub hset_lem :
      (l k v : Text) (s s' : Server)
      → hset l k v s ≡ some s'
      → (m j : Text) → field s' m j ≡ (if text_eq l m && text_eq k j then some v else field s m j)
  pub hdel_lem :
      (l k : Text) (s s' : Server)
      → hdel l k s ≡ some s'
      → (m j : Text) → field s' m j ≡ (if text_eq l m && text_eq k j then none else field s m j)
  pub hget_all_sound :
      (l : Text) (s : Server) (fs : List (Text × Text))
      → hget_all l s ≡ some fs
      → (k v : Text) → In (k, v) fs
      → field s l k ≡ some v
  pub hget_all_complete :
      (l : Text) (s : Server) (fs : List (Text × Text))
      → hget_all l s ≡ some fs
      → (k v : Text) → field s l k ≡ some v
      → In (k, v) fs

-- `address` is op.Address, and `local_cache` the keys of localCache.
pub record RedisStore (S : Type 0) : Type 0 where
  pub address : Text
  pub server : S
  pub local_cache : List Text

-- located/TYPE
unfoldable pub layer_key : Text → LayerType → Text
layer_key located t = located ++ (b'/' ∷ type_name t)

unfoldable pub build_layer_key : {S : Type 0} → RedisStore S → LayerType → Text
unfolding layer_key
build_layer_key r t = layer_key r.address t

-- The clock gives seconds, from 1970 on.
unfoldable pub build_layer_value : Text → ℕ → Text
build_layer_value file_path now = file_path ++ (b':' ∷ print_nat now)

unfoldable pub two_parts : List Text → Option (Text × Text)
two_parts (a ∷ b ∷ []) = some (a, b)
two_parts [] = none
two_parts (a ∷ []) = none
two_parts (a ∷ b ∷ c ∷ rest) = none

unfoldable pub parse_layer_value : Text → Option (Text × ℤ)
parse_layer_value value = elim (two_parts (split value b':')) [
  | none ↦ none
  | some (file_path, tstr) ↦ elim (parse_int tstr) [ none ↦ none | some ts ↦ some (file_path, ts) ]
]

module _ (redis : Redis) where
  open redis use {Server, hset, hdel, hget_all}

  -- SaveOCILayer and SaveStaticLayer, which differ in the type and in what they log.
  unfoldable pub save_layer :
      LayerType → Text → Text → ℕ → RedisStore Server → Option (RedisStore Server)
  unfolding build_layer_key build_layer_value add_key
  save_layer t layer file_path now r =
      elim (hset layer (build_layer_key r t) (build_layer_value file_path now) r.server) [
        | none ↦ none
        | some s ↦ some (record r { server = s; local_cache = add_key layer r.local_cache })
      ]

  unfoldable pub save_oci_layer :
      LayerType → Text → Text → ℕ → RedisStore Server → Option (RedisStore Server)
  unfolding save_layer
  save_oci_layer = save_layer

  unfoldable pub save_static_layer :
      Text → Text → ℕ → RedisStore Server → Option (RedisStore Server)
  unfolding save_layer
  save_static_layer = save_layer static_file

  unfoldable pub delete_located :
      Text → LayerType → Text → RedisStore Server → Option (RedisStore Server)
  unfolding layer_key
  delete_located located t layer r = elim (hdel layer (layer_key located t) r.server) [
    | none ↦ none
    | some s ↦ some (record r { server = s })
  ]

  unfoldable pub delete_oci_layer :
      LayerType → Text → RedisStore Server → Option (RedisStore Server)
  unfolding delete_located
  delete_oci_layer t layer r = delete_located r.address t layer r

  unfoldable pub delete_static_layer : Text → RedisStore Server → Option (RedisStore Server)
  unfolding delete_located
  delete_static_layer layer r = delete_located r.address static_file layer r

  unfoldable pub delete_located_static_layer :
      Text → Text → RedisStore Server → Option (RedisStore Server)
  unfolding delete_located
  delete_located_static_layer located layer r = delete_located located static_file layer r

  -- A deletion whose error is dropped.
  unfoldable pub try_hdel : Text → Text → Server → Server
  try_hdel layer key s = elim (hdel layer key s) [ none ↦ s | some s' ↦ s' ]

  unfoldable pub clean_keys : Text → List Text → Server → Server
  unfolding try_hdel
  clean_keys layer [] s = s
  clean_keys layer (key ∷ keys) s = clean_keys layer keys (try_hdel layer key s)

  unfoldable pub clean_layers : List Text → List Text → Server → Server
  unfolding clean_keys
  clean_layers [] keys s = s
  clean_layers (layer ∷ layers) keys s = clean_layers layers keys (clean_keys layer keys s)

  -- The goroutines of CleanHostCache, in the order in which they were started.
  unfoldable pub clean_host_cache : RedisStore Server → RedisStore Server
  unfolding clean_layers build_layer_key
  clean_host_cache r =
      let keys =
        build_layer_key r static_file
        ∷ build_layer_key r containerd
        ∷ build_layer_key r dockerd
        ∷ [] in
      record r { server = clean_layers r.local_cache keys r.server }

-- The type whose name a key ends in.
unfoldable pub type_of : Text → Option LayerType
type_of name =
    if text_eq name (type_name static_file)
    then some static_file
    else if text_eq name (type_name containerd)
    then some containerd
    else if text_eq name (type_name dockerd)
    then some dockerd
    else none

-- The difference of two int64, which wraps around.
unfoldable pub sub_int64 : ℤ → ℤ → ℤ
unfolding ◌-ℤ◌
sub_int64 a b = let w = word (a -ℤ b) in if ltb w (2 ^ 63) then pos w else negsuc (2 ^ 64 - 1 - w)
  where
    word : ℤ → ℕ
    word (pos n) = n % 2 ^ 64
    word (negsuc n) = 2 ^ 64 - 1 - n % 2 ^ 64

-- One round of the loop of QueryLayers: `none` where it continues.
unfoldable pub read_field : Text → ℕ → Text × Text → Option LayerLocatedInfo
read_field layer now (k, v) = elim (two_parts (split k b'/')) [
  | none ↦ none
  | some (located, key_type) ↦ elim (type_of key_type) [
    | none ↦ none
    | some t ↦ elim (parse_layer_value v) [
      | none ↦ none
      | some (file_path, ts) ↦
          if ltb_ℤ (pos 120) (sub_int64 (pos now) ts)
          then none
          else some (record {
            layer = layer;
            type = t;
            located = located;
            path = file_path;
            ts = ts;
            refer = pos 0;
          })
    ]
  ]
]

abbrev pub is_static : LayerType → Bool
is_static static_file = true
is_static containerd = false
is_static dockerd = false

abbrev pub Found : Type 0
Found = List LayerLocatedInfo × List LayerLocatedInfo

-- The switch that ends a round. The slices are filled from the back, so that each keeps the order
-- of the fields.
unfoldable pub add_found : Option LayerLocatedInfo → Found → Found
add_found none found = found
add_found (some info) found =
    if is_static info.type then (info ∷ found.0, found.1) else (found.0, info ∷ found.1)

-- The two slices that the loop of QueryLayers fills.
unfoldable pub collect : Text → ℕ → List (Text × Text) → Found
unfolding add_found
collect layer now [] = ([], [])
collect layer now (f ∷ fs) = add_found (read_field layer now f) (collect layer now fs)

-- TS, latest first.
abbrev pub later : LayerLocatedInfo → LayerLocatedInfo → Bool
later a b = ltb_ℤ b.ts a.ts

abbrev pub top_n : ℕ
top_n = 50

unfoldable pub get_top_n : List LayerLocatedInfo → ℕ → List LayerLocatedInfo
get_top_n xs n = take n xs

module _ (redis : Redis) where
  open redis use {Server, hget_all}

  unfoldable pub query_layers : Text → ℕ → RedisStore Server → Option Found
  unfolding get_top_n
  query_layers layer now r = elim (hget_all layer r.server) [
    | none ↦ none
    | some fields ↦
        let found = collect layer now fields in
        some (get_top_n (sort_by later found.0) top_n, get_top_n (sort_by later found.1) top_n)
  ]
