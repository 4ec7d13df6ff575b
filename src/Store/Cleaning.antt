-- ===== src/Store/Cleaning.antt =====
-- pkg/store/redis.go: what CleanHostCache takes out of the server.
use accelerboat.Base.{
  ◌≡◌, ◌≢◌, refl, inl, inr, ◌&&◌, none, List, [], ◌∷◌, arith, if◌then◌else◌, Option-cases,
}
use accelerboat.Base.Keys.{mem}
use accelerboat.Base.Text.{Text, text_eq}
use accelerboat.Store.{
  dockerd, containerd, static_file, Redis, RedisStore, layer_key, build_layer_key, try_hdel,
  clean_keys, clean_layers, clean_host_cache,
}

module _ (redis : Redis) (answers : (l k : Text) (s : redis.Server) → redis.hdel l k s ≢ none) where
  open redis use {Server, field, hdel, hdel_lem}

  try_hdel-field :
      (l k : Text) (s : Server) (m j : Text)
      → field (try_hdel redis l k s) m j
        ≡ (if text_eq l m && text_eq k j then none else field s m j)
  unfolding try_hdel
  try_hdel-field l k s m j = elim (Option-cases (hdel l k s)) [
    | inl none' ↦ absurd (answers l k s none')
    | inr (s', some') ↦ rw (some', try_hdel) (hdel_lem l k s s' some' m j)
  ]

  clean_keys-field :
      (l : Text) (ks : List Text) (s : Server) (m j : Text)
      → field (clean_keys redis l ks s) m j
        ≡ (if text_eq l m && mem j ks then none else field s m j)
  unfolding clean_keys mem
  clean_keys-field l [] s m j = ground arith
  clean_keys-field l (k ∷ ks) s m j =
      ground (arith, clean_keys-field l ks (try_hdel redis l k s) m j, try_hdel-field l k s m j)

  clean_layers-field :
      (ls ks : List Text) (s : Server) (m j : Text)
      → field (clean_layers redis ls ks s) m j
        ≡ (if mem m ls && mem j ks then none else field s m j)
  unfolding clean_layers mem
  clean_layers-field [] ks s m j = refl
  clean_layers-field (l ∷ ls) ks s m j =
      ground
        (arith, clean_layers-field ls ks (clean_keys redis l ks s) m j, clean_keys-field l ks s m j)

-- The keys of a node, one for each type.
abbrev pub own_keys : Text → List Text
own_keys address =
    layer_key address static_file ∷ layer_key address containerd ∷ layer_key address dockerd ∷ []

-- On a server that answers every deletion, CleanHostCache takes out exactly the fields of the layers
-- that this node has saved whose keys are this node's, for each of the three types, and leaves every
-- other field of every layer.
pub clean_host_cache-field :
    (redis : Redis) (r : RedisStore redis.Server) (layer key : Text)
    → ((l k : Text) (s : redis.Server) → redis.hdel l k s ≢ none)
    → redis.field (clean_host_cache redis r).server layer key ≡ (
        if mem layer r.local_cache && mem key (own_keys r.address)
        then none
        else redis.field r.server layer key)
unfolding clean_host_cache build_layer_key
clean_host_cache-field redis r layer key answers =
    clean_layers-field redis answers r.local_cache (own_keys r.address) r.server layer key
