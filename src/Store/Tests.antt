-- ===== src/Store/Tests.antt =====
-- pkg/store/redis.go: the theorems at a Redis in memory.
use Prim.Native.Nat.{◌≤◌}
use accelerboat.Base.{◌≡◌, ◌≢◌, refl, ◌⊎◌, false, none, some, [], ◌∷◌, arith, length}
use accelerboat.Base.Sort.{All, In, Sorted, sort_by}
use accelerboat.Base.Keys.{mem, delete, add_key}
use accelerboat.Base.Text.{Text, codes, text_eq}
use accelerboat.Store.{
  containerd, LayerLocatedInfo, RedisStore, Found, layer_key, build_layer_value, save_layer,
  delete_located, query_layers, read_field, later, top_n, build_layer_key, get_top_n, collect,
  add_found,
}
use accelerboat.Store.Memory.{Log, log_all, put, memory}
use accelerboat.Store.Keys.{fresh_info, read_field-saved}
use accelerboat.Store.Query.{side, IsStored, query_layers_sound}
use accelerboat.Store.Saving.{save_layer-query_layers}

abbrev pub layer : Text
layer = codes "sha256:aa"

abbrev file_path : Text
file_path = codes "/data/aa"

abbrev empty_store : RedisStore Log
empty_store = record { address = codes "10.0.0.1"; server = []; local_cache = [] }

abbrev pub saved_store : RedisStore Log
saved_store = record {
  address = codes "10.0.0.1";
  server =
      (layer, layer_key (codes "10.0.0.1") containerd, some (build_layer_value file_path 1000))
      ∷ [];
  local_cache = layer ∷ [];
}

abbrev pub found : Found
found = ([], fresh_info layer containerd (codes "10.0.0.1") file_path 1000 ∷ [])

saves : save_layer memory containerd layer file_path 1000 empty_store ≡ some saved_store
unfolding save_layer build_layer_key add_key mem
saves = refl

reads :
    read_field layer 1010
      (layer_key (codes "10.0.0.1") containerd, build_layer_value file_path 1000)
    ≡ some (fresh_info layer containerd (codes "10.0.0.1") file_path 1000)
reads =
    read_field-saved layer containerd (codes "10.0.0.1") file_path 1000 1010 (omega arith)
      (omega arith) (omega arith) (omega arith) (omega arith)

pub asks : query_layers memory layer 1010 saved_store ≡ some found
unfolding query_layers get_top_n collect add_found log_all put delete text_eq sort_by layer_key
asks = rw reads refl

query_layers_sound_example :
    All (IsStored memory saved_store.server layer 1010 false) (side false found)
    × (length (side false found) ≤ top_n)
    × Sorted later (side false found)
query_layers_sound_example = query_layers_sound memory layer 1010 saved_store found false asks

abbrev info : LayerLocatedInfo
info = fresh_info layer containerd (codes "10.0.0.1") file_path 1000

save_layer-query_layers_example :
    In info (side false found)
    ⊎ (length (side false found) ≡ top_n) × All (λ i. later info i ≡ false) (side false found)
save_layer-query_layers_example =
    save_layer-query_layers memory containerd layer file_path 1000 1010 empty_store saved_store
      saved_store found saves refl asks (omega arith) (omega arith) (omega arith) (omega arith)
      (omega arith)

abbrev deleted_store : RedisStore Log
deleted_store = record saved_store {
  server = (layer, layer_key (codes "10.0.0.1") containerd, none) ∷ saved_store.server;
}

deletes : delete_located memory (codes "10.0.0.1") containerd layer saved_store ≡ some deleted_store
unfolding delete_located
deletes = refl

asks_again : query_layers memory layer 1010 deleted_store ≡ some ([], [])
unfolding query_layers get_top_n collect log_all put delete text_eq sort_by layer_key
asks_again = refl

answers : (l k : Text) (s : Log) → memory.hdel l k s ≢ none
answers l k s e = absurd cc
