-- ===== src/Layer/Cached/Dropped.antt =====
-- layer.go: what checkLayerHasCached deletes from the store.
use Prim.Native.Nat.{ℕ}
use accelerboat.Base.{
  ◌≡◌, refl, ◌∙◌, ◌⊎◌, inl, inr, ◌&&◌, Option, none, some, List, [], ◌∷◌, map, arith, Bool-cases,
  Option-cases, subst,
}
use accelerboat.Base.Int.{ℤ}
use accelerboat.Base.Sort.{In, All_In, All-of, All-sort_by, sort_by}
use accelerboat.Base.Text.{Text, text_eq, text_eq→eq}
use accelerboat.Store.{
  LayerLocatedInfo, Redis, RedisStore, Found, layer_key, static_file, delete_located,
  delete_located_static_layer, query_layers,
}
use accelerboat.Layer.Cached.{
  DownloadLayerRequest, DownloadLayerResponse, CheckStaticLayerRequest, CheckOciLayerRequest,
  CheckLayerResponse, Caches, refers_of, made, with_refer, less_referred, sort_layer_cache,
  drop_static, check_statics, check_ocis, or_ocis, check_found, check_layer_has_cached,
}
use accelerboat.Layer.Cached.Choice.{passes_static, referred, refers_of-made, has_cached-eq}
use accelerboat.Layer.Cached.Scan.{Check}

module _ (redis : Redis) (check_static : Text → CheckStaticLayerRequest → Option CheckLayerResponse)
    (check_oci : Text → CheckOciLayerRequest → Option CheckLayerResponse)
    (req : DownloadLayerRequest) (content_length : ℤ) where
  open redis use {Server, field}

  abbrev pub ok : Check
  ok = passes_static redis check_static check_oci req content_length

  -- The field is that of a location in the list, whose check has failed.
  abbrev pub IsFailed : List LayerLocatedInfo → Text → Text → Type 0
  IsFailed ls m j =
      (m ≡ req.digest)
      × ((l : LayerLocatedInfo) × In l ls × (j ≡ layer_key l.located static_file) × (ok l ≡ none))

  abbrev Dropped : List LayerLocatedInfo → Server → Server → Type 0
  Dropped ls s s' =
      (m j : Text) → (field s' m j ≡ field s m j) ⊎ (field s' m j ≡ none) × IsFailed ls m j

  drop_static-field :
      (located : Text) (r : RedisStore Server) (m j : Text)
      → let r' = drop_static redis check_static check_oci located req.digest r in
        (field r'.server m j ≡ field r.server m j)
        ⊎ (field r'.server m j ≡ none) × (m ≡ req.digest) × (j ≡ layer_key located static_file)
  unfolding drop_static delete_located_static_layer delete_located
  drop_static-field located r m j =
      elim (Option-cases (redis.hdel req.digest (layer_key located static_file) r.server)) [
        | inl none' ↦
            rw (none', drop_static, delete_located_static_layer, delete_located) (inl refl)
        | inr (s, some') ↦
            rw (some', drop_static, delete_located_static_layer, delete_located) (split_hit s some')
      ]
    where
      split_hit :
          (s : Server)
          → redis.hdel req.digest (layer_key located static_file) r.server ≡ some s
          → (field s m j ≡ field r.server m j)
            ⊎ (field s m j ≡ none) × (m ≡ req.digest) × (j ≡ layer_key located static_file)
      split_hit s e =
          elim (Bool-cases (text_eq req.digest m && text_eq (layer_key located static_file) j)) [
            | inl hit ↦ ground (
              arith,
              hit,
              redis.hdel_lem req.digest (layer_key located static_file) r.server s e m j,
              text_eq→eq req.digest m,
              text_eq→eq (layer_key located static_file) j,
            )
            | inr miss ↦ ground (
              arith,
              miss,
              redis.hdel_lem req.digest (layer_key located static_file) r.server s e m j,
            )
          ]

  IsFailed-cons :
      (sl : LayerLocatedInfo) (sls : List LayerLocatedInfo) (m j : Text)
      → IsFailed sls m j
      → IsFailed (sl ∷ sls) m j
  IsFailed-cons sl sls m j (em, (l, i, ej, f)) = (em, (l, inr i, ej, f))

  Dropped-cons :
      (sl : LayerLocatedInfo) (sls : List LayerLocatedInfo) (r : RedisStore Server) (s' : Server)
      → ok sl ≡ none
      → Dropped sls (drop_static redis check_static check_oci sl.located req.digest r).server s'
      → Dropped (sl ∷ sls) r.server s'
  Dropped-cons sl sls r s' bad h m j = elim (h m j) [
    | inr (gone, failed) ↦ inr (gone, IsFailed-cons sl sls m j failed)
    | inl same ↦ elim (drop_static-field sl.located r m j) [
      | inl kept ↦ inl (same ∙ kept)
      | inr (gone, em, ej) ↦ inr (same ∙ gone, (em, (sl, inl refl, ej, bad)))
    ]
  ]

  statics-Dropped :
      (ls : List LayerLocatedInfo) (c : Caches Server)
      → Dropped ls c.cache_store.server
          (check_statics redis check_static check_oci req content_length ls c).1.cache_store.server
  unfolding check_statics
  statics-Dropped [] c = λ m j. inl refl
  statics-Dropped (sl ∷ sls) c = elim (Option-cases (ok sl)) [
    | inr (a, some') ↦ rw (some', check_statics) (λ m j. inl refl)
    | inl none' ↦
        rw (none', check_statics)
          (Dropped-cons sl sls c.cache_store _ none' (
            statics-Dropped sls (record c {
              cache_store =
                  drop_static redis check_static check_oci sl.located req.digest c.cache_store;
            })))
  ]

  ocis-server :
      (ls : List LayerLocatedInfo) (c : Caches Server)
      → (check_ocis redis check_static check_oci req ls c).1.cache_store.server
        ≡ c.cache_store.server
  unfolding check_ocis
  ocis-server [] c = refl
  ocis-server (l ∷ ls) c = ground (arith, ocis-server ls c)

  or_ocis-server :
      (ocis : List LayerLocatedInfo) (o : Option DownloadLayerResponse) (c : Caches Server)
      → (or_ocis redis check_static check_oci req ocis (o, c)).1.cache_store.server
        ≡ c.cache_store.server
  unfolding or_ocis
  or_ocis-server ocis (some r) c = refl
  or_ocis-server ocis none c =
      ocis-server _ (record c { oci_layer_refer = made req.digest c.oci_layer_refer })

  sorted_In :
      (l : LayerLocatedInfo) (ls : List LayerLocatedInfo) (refer : List (Text × ℤ))
      → In l (sort_layer_cache ls refer)
      → In l (map (with_refer refer) ls)
  unfolding sort_layer_cache
  sorted_In l ls refer i =
      let xs = map (with_refer refer) ls in
      All_In (λ x. In x xs) l (sort_by less_referred xs)
        (All-sort_by less_referred (λ x. In x xs) xs (All-of (λ x. In x xs) xs (λ x k. k))) i

  found-Dropped :
      (found : Found) (c : Caches Server)
      → Dropped
          (referred redis check_static check_oci req content_length c.static_layer_refer found.0)
          c.cache_store.server
          (check_found redis check_static check_oci req content_length found c).1.cache_store.server
  unfolding check_found
  found-Dropped (statics, ocis) c m j =
      let c1 = record c { static_layer_refer = made req.digest c.static_layer_refer } in
      let refer = refers_of req.digest c1.static_layer_refer in
      let ls = sort_layer_cache statics refer in
      let p = check_statics redis check_static check_oci req content_length ls c1 in
      let keep : (or_ocis redis check_static check_oci req ocis p).1.cache_store.server
          ≡ p.1.cache_store.server =
        or_ocis-server ocis p.0 p.1 in
      rw keep (elim (statics-Dropped ls c1 m j) [
        | inl same ↦ inl same
        | inr (gone, (em, (l, i, ej, f))) ↦ inr (
          gone,
          (
            em,
            (
              l,
              subst (λ r. In l (map (with_refer r) statics))
                  (refers_of-made req.digest c.static_layer_refer) (sorted_In l statics refer i),
              ej,
              f,
            ),
          ),
        )
      ])

  -- checkLayerHasCached changes the server's fields only by deletions, and deletes only fields of the
  -- layer that are the static locations whose check by their node failed.
  pub check_layer_has_cached-IsFailed :
      (now : ℕ) (found : Found) (c : Caches Server)
      → query_layers redis req.digest now c.cache_store ≡ some found
      → let (o, c') =
          check_layer_has_cached redis check_static check_oci req content_length now c in
        (m j : Text)
        → (field c'.cache_store.server m j ≡ field c.cache_store.server m j)
          ⊎ (field c'.cache_store.server m j ≡ none)
            × IsFailed
                (referred redis check_static check_oci req content_length c.static_layer_refer
                  found.0)
                m
                j
  check_layer_has_cached-IsFailed now found c e m j =
      rw (has_cached-eq redis check_static check_oci req content_length now found c e)
        (found-Dropped found c m j)
