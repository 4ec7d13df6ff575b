-- ===== src/Store/Saving.antt =====
-- pkg/store/redis.go: what QueryLayers makes of the layers that are saved and deleted.
use Prim.Native.Nat.{ℕ, ◌+◌, ◌≤◌, ◌<◌, ◌^◌}
use accelerboat.Base.{
  ◌≡◌, sym, ap, ◌⊎◌, inl, inr, Bool, true, false, ◌&&◌, none, some, some_inj, arith, length,
  Option-cases, subst,
}
use accelerboat.Base.Sort.{All, In}
use accelerboat.Base.Text.{Text, text_eq, text_eq_refl, Lacks}
use accelerboat.Store.{
  LayerType, LayerLocatedInfo, Found, Redis, RedisStore, layer_key, build_layer_key,
  build_layer_value, save_layer, delete_located, is_static, later, top_n, query_layers,
}
use accelerboat.Store.Keys.{fresh_info, read_field-saved}
use accelerboat.Store.Query.{side, IsStored, query_layers_sound, query_layers_complete, All-imp}

hit_self : (l k : Text) → (text_eq l l && text_eq k k) ≡ true
hit_self l k = ground (arith, text_eq_refl l, text_eq_refl k)

save_layer-field :
    (redis : Redis) (t : LayerType) (layer file_path : Text) (saved : ℕ)
    (r r' : RedisStore redis.Server)
    → save_layer redis t layer file_path saved r ≡ some r'
    → redis.field r'.server layer (layer_key r.address t) ≡ some (build_layer_value file_path saved)
unfolding save_layer build_layer_key
save_layer-field redis t layer file_path saved r r' e =
    elim (Option-cases (redis.hset layer key value r.server)) [
      | inl none' ↦ absurd (cc (rw (none', save_layer) at e))
      | inr (s, some') ↦
          let server : r'.server ≡ s =
            ap (λ (q : RedisStore redis.Server). q.server)
              (sym (some_inj (rw (some', save_layer) at e))) in
          rw (server, redis.hset_lem layer key value r.server s some' layer key, hit_self layer key)
    ]
  where
    key : Text
    key = build_layer_key r t

    value : Text
    value = build_layer_value file_path saved

-- A layer that a node saves is found by every query of any node on the same server: for 120 seconds,
-- if the node's address has no '/' and the path no ':', a successful query lists that location,
-- unless it lists 50 locations of its kind that are at least as late.
pub save_layer-query_layers :
    (redis : Redis) (t : LayerType) (layer file_path : Text) (saved now : ℕ)
    (r r' q : RedisStore redis.Server) (found : Found)
    → save_layer redis t layer file_path saved r ≡ some r'
    → q.server ≡ r'.server
    → query_layers redis layer now q ≡ some found
    → Lacks b'/' r.address
    → Lacks b':' file_path
    → saved ≤ now
    → now ≤ saved + 120
    → now < 2 ^ 63
    → let info = fresh_info layer t r.address file_path saved in
      In info (side (is_static t) found)
      ⊎ (length (side (is_static t) found) ≡ top_n)
        × All (λ i. later info i ≡ false) (side (is_static t) found)
save_layer-query_layers redis t layer file_path saved now r r' q found e same asks ha hp le near
      lt =
    query_layers_complete redis layer now q found (layer_key r.address t)
      (build_layer_value file_path saved) (fresh_info layer t r.address file_path saved) asks
      (subst
        (λ s.
          redis.field s layer (layer_key r.address t) ≡ some (build_layer_value file_path saved))
        (sym same) (save_layer-field redis t layer file_path saved r r' e))
      (read_field-saved layer t r.address file_path saved now ha hp le near lt)

delete_located-field :
    (redis : Redis) (located : Text) (t : LayerType) (layer : Text) (r r' : RedisStore redis.Server)
    → delete_located redis located t layer r ≡ some r'
    → redis.field r'.server layer (layer_key located t) ≡ none
unfolding delete_located
delete_located-field redis located t layer r r' e =
    elim (Option-cases (redis.hdel layer key r.server)) [
      | inl none' ↦ absurd (cc (rw (none', delete_located) at e))
      | inr (s, some') ↦
          let server : r'.server ≡ s =
            ap (λ (q : RedisStore redis.Server). q.server)
              (sym (some_inj (rw (some', delete_located) at e))) in
          rw (server, redis.hdel_lem layer key r.server s some' layer key, hit_self layer key)
    ]
  where
    key : Text
    key = layer_key located t

-- After a node's location of a layer is deleted, no successful query of any node on that server
-- lists the layer on that node with that type.
pub delete_located-query_layers :
    (redis : Redis) (located : Text) (t : LayerType) (layer : Text) (now : ℕ)
    (r r' q : RedisStore redis.Server) (found : Found) (b : Bool)
    → delete_located redis located t layer r ≡ some r'
    → q.server ≡ r'.server
    → query_layers redis layer now q ≡ some found
    → All (λ i. ¬ ((i.located ≡ located) × (i.type ≡ t))) (side b found)
delete_located-query_layers redis located t layer now r r' q found b e same asks =
    All-imp (side b found) gone (query_layers_sound redis layer now q found b asks).0
  where
    gone :
        (i : LayerLocatedInfo)
        → IsStored redis q.server layer now b i
        → ¬ ((i.located ≡ located) × (i.type ≡ t))
    gone i h (at_node, of_type) =
        cc (moved, h.3.1, delete_located-field redis located t layer r r' e)
      where
        moved :
            redis.field q.server layer (layer_key i.located i.type)
            ≡ redis.field r'.server layer (layer_key located t)
        moved = λ k. redis.field (same k) layer (layer_key (at_node k) (of_type k))
