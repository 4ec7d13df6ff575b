-- ===== src/Layer/Cached/Choice.antt =====
-- layer.go: which cached location checkLayerHasCached answers with.
use Prim.Native.Nat.{ℕ}
use accelerboat.Base.{
  ◌≡◌, refl, sym, ◌⊎◌, inl, inr, true, false, Option, none, some, List, [], ◌∷◌, map, arith,
  Option-cases, subst,
}
use accelerboat.Base.Int.{ℤ}
use accelerboat.Base.Keys.{lookup, lookup-insert}
use accelerboat.Base.Sort.{sort_by, sort_by-Sorted}
use accelerboat.Base.Text.{Text, text_eq_refl}
use accelerboat.Store.{LayerLocatedInfo, Redis, Found, query_layers}
use accelerboat.Layer.Cached.{
  DownloadLayerRequest, DownloadLayerResponse, CheckStaticLayerRequest, CheckOciLayerRequest,
  CheckLayerResponse, Caches, Refers, refers_of, made, add_refer, with_refer, less_referred,
  sort_layer_cache, static_request, oci_request, to_response, drop_static, check_statics,
  check_ocis, or_ocis, check_found, check_layer_has_cached,
}
use accelerboat.Layer.Cached.Scan.{Check, IsBest, AllFail, scan, IsScan, scan_lem, IsScan-sort_by}

abbrev respond : Option (LayerLocatedInfo × CheckLayerResponse) → Option DownloadLayerResponse
respond none = none
respond (some (l, a)) = some (to_response a)

abbrev count_in : Text → Option (LayerLocatedInfo × CheckLayerResponse) → Refers → Refers
count_in digest none m = m
count_in digest (some (l, a)) m = add_refer digest l.located m

pub refers_of-made :
    (digest : Text) (m : Refers) → refers_of digest (made digest m) ≡ refers_of digest m
unfolding refers_of made
refers_of-made digest m = elim (Option-cases (lookup digest m)) [
  | inl none' ↦ ground (arith, none', lookup-insert digest digest [] m, text_eq_refl digest)
  | inr (r, some') ↦ ground (arith, some')
]

module _ (redis : Redis) (check_static : Text → CheckStaticLayerRequest → Option CheckLayerResponse)
    (check_oci : Text → CheckOciLayerRequest → Option CheckLayerResponse)
    (req : DownloadLayerRequest) (content_length : ℤ) where
  open redis use {Server}

  abbrev pub passes_static : Check
  passes_static sl = check_static sl.located (static_request req content_length sl)

  abbrev pub passes_oci : Check
  passes_oci l = check_oci l.located (oci_request req l)

  statics_scan :
      (ls : List LayerLocatedInfo) (c : Caches Server)
      → let (o, c') = check_statics redis check_static check_oci req content_length ls c in
        let found = scan passes_static ls in
        (o ≡ respond found)
        × (c'.static_layer_refer ≡ count_in req.digest found c.static_layer_refer)
        × (c'.oci_layer_refer ≡ c.oci_layer_refer)
  unfolding check_statics scan
  statics_scan [] c = (refl, refl, refl)
  statics_scan (sl ∷ sls) c = elim (Option-cases (passes_static sl)) [
    | inl none' ↦ ground (
      arith,
      none',
      statics_scan sls (record c {
        cache_store = drop_static redis check_static check_oci sl.located req.digest c.cache_store;
      }),
    )
    | inr (a, some') ↦ ground (arith, some')
  ]

  ocis_scan :
      (ls : List LayerLocatedInfo) (c : Caches Server)
      → let (o, c') = check_ocis redis check_static check_oci req ls c in
        let found = scan passes_oci ls in
        (o ≡ respond found)
        × (c'.oci_layer_refer ≡ count_in req.digest found c.oci_layer_refer)
        × (c'.static_layer_refer ≡ c.static_layer_refer)
  unfolding check_ocis scan
  ocis_scan [] c = (refl, refl, refl)
  ocis_scan (l ∷ ls) c = elim (Option-cases (passes_oci l)) [
    | inl none' ↦ ground (arith, none', ocis_scan ls c)
    | inr (a, some') ↦ ground (arith, some')
  ]

  -- The locations with the counts of the digest.
  abbrev pub referred : Refers → List LayerLocatedInfo → List LayerLocatedInfo
  referred m = map (with_refer (refers_of req.digest m))

  less_asym : (a b : LayerLocatedInfo) → less_referred a b ≡ true → less_referred b a ≡ false
  less_asym a b h = ground arith

  less_trans :
      (a b c : LayerLocatedInfo)
      → less_referred b a ≡ false
      → less_referred c b ≡ false
      → less_referred c a ≡ false
  less_trans a b c h k = ground arith

  scan-sorted :
      (check : Check) (ls : List LayerLocatedInfo) (m : Refers)
      → IsScan check
          (referred m ls)
          (scan check (sort_layer_cache ls (refers_of req.digest (made req.digest m))))
  unfolding sort_layer_cache
  scan-sorted check ls m = rw (refers_of-made req.digest m) (
      IsScan-sort_by check (referred m ls) _ (
        scan_lem check (sort_by less_referred (referred m ls))
          (sort_by-Sorted less_referred less_asym less_trans (referred m ls))))

  -- A static location is chosen, or a location of a container runtime, or none.
  abbrev pub IsOutcome :
      Found → Caches Server → Option DownloadLayerResponse → Caches Server → Type 0
  IsOutcome (statics, ocis) c o c' =
      ((l : LayerLocatedInfo) × (a : CheckLayerResponse) × IsBest passes_static
          (referred c.static_layer_refer statics) l a
        × (o ≡ some (to_response a))
        × (c'.static_layer_refer
            ≡ add_refer req.digest l.located (made req.digest c.static_layer_refer)))
      ⊎ AllFail passes_static (referred c.static_layer_refer statics)
        × (((l : LayerLocatedInfo) × (a : CheckLayerResponse) × IsBest passes_oci
                (referred c.oci_layer_refer ocis) l a
              × (o ≡ some (to_response a))
              × (c'.oci_layer_refer
                  ≡ add_refer req.digest l.located (made req.digest c.oci_layer_refer)))
            ⊎ AllFail passes_oci (referred c.oci_layer_refer ocis) × (o ≡ none))

  abbrev OciOutcome :
      List LayerLocatedInfo → Refers → Option DownloadLayerResponse → Refers → Type 0
  OciOutcome ocis m o m' =
      ((l : LayerLocatedInfo) × (a : CheckLayerResponse) × IsBest passes_oci (referred m ocis) l a
        × (o ≡ some (to_response a))
        × (m' ≡ add_refer req.digest l.located (made req.digest m)))
      ⊎ AllFail passes_oci (referred m ocis) × (o ≡ none)

  oci_outcome :
      (ocis : List LayerLocatedInfo) (m m' : Refers) (o : Option DownloadLayerResponse)
      (found : Option (LayerLocatedInfo × CheckLayerResponse))
      → IsScan passes_oci (referred m ocis) found
      → o ≡ respond found
      → m' ≡ count_in req.digest found (made req.digest m)
      → OciOutcome ocis m o m'
  oci_outcome ocis m m' o none h e em = inr (h, e)
  oci_outcome ocis m m' o (some (l, a)) h e em = inl (l, a, h, e, em)

  or_ocis-none :
      (ocis : List LayerLocatedInfo) (c c' : Caches Server) (o : Option DownloadLayerResponse)
      → o ≡ none
      → c'.oci_layer_refer ≡ c.oci_layer_refer
      → let (r, c2) = or_ocis redis check_static check_oci req ocis (o, c') in
        OciOutcome ocis c.oci_layer_refer r c2.oci_layer_refer
  unfolding or_ocis
  or_ocis-none ocis c c' (some r) e same = absurd cc
  or_ocis-none ocis c c' none e same =
      let c1 = record c' { oci_layer_refer = made req.digest c'.oci_layer_refer } in
      let ls = sort_layer_cache ocis (refers_of req.digest c1.oci_layer_refer) in
      let (eo, em, es) = ocis_scan ls c1 in
      subst
        (λ m.
          OciOutcome ocis m (check_ocis redis check_static check_oci req ls c1).0
            (check_ocis redis check_static check_oci req ls c1).1.oci_layer_refer)
        same
        (oci_outcome ocis c'.oci_layer_refer _ _ (scan passes_oci ls)
          (scan-sorted passes_oci ocis c'.oci_layer_refer) eo em)

  or_ocis-some :
      (ocis : List LayerLocatedInfo) (r : DownloadLayerResponse) (o : Option DownloadLayerResponse)
      (c : Caches Server)
      → o ≡ some r
      → or_ocis redis check_static check_oci req ocis (o, c) ≡ (some r, c)
  unfolding or_ocis
  or_ocis-some ocis r none c e = absurd cc
  or_ocis-some ocis r (some q) c e = λ i. (e i, c)

  after_statics :
      (statics ocis : List LayerLocatedInfo) (c c' : Caches Server)
      (o : Option DownloadLayerResponse) (found : Option (LayerLocatedInfo × CheckLayerResponse))
      → IsScan passes_static (referred c.static_layer_refer statics) found
      → o ≡ respond found
      → c'.static_layer_refer ≡ count_in req.digest found (made req.digest c.static_layer_refer)
      → c'.oci_layer_refer ≡ c.oci_layer_refer
      → let (r, c2) = or_ocis redis check_static check_oci req ocis (o, c') in
        IsOutcome (statics, ocis) c r c2
  after_statics statics ocis c c' o none h e em same = inr (h, or_ocis-none ocis c c' o e same)
  after_statics statics ocis c c' o (some (l, a)) h e em same =
      subst (λ p. IsOutcome (statics, ocis) c p.0 p.1)
        (sym (or_ocis-some ocis (to_response a) o c' e)) (inl (l, a, h, refl, em))

  check_found_lem :
      (found : Found) (c : Caches Server)
      → let (o, c') = check_found redis check_static check_oci req content_length found c in
        IsOutcome found c o c'
  unfolding check_found
  check_found_lem (statics, ocis) c =
      let c1 = record c { static_layer_refer = made req.digest c.static_layer_refer } in
      let ls = sort_layer_cache statics (refers_of req.digest c1.static_layer_refer) in
      let (eo, em, same) = statics_scan ls c1 in
      after_statics statics ocis c _ _ (scan passes_static ls)
        (scan-sorted passes_static statics c.static_layer_refer) eo em same

  pub has_cached-eq :
      (now : ℕ) (found : Found) (c : Caches Server)
      → query_layers redis req.digest now c.cache_store ≡ some found
      → check_layer_has_cached redis check_static check_oci req content_length now c
        ≡ check_found redis check_static check_oci req content_length found c
  unfolding check_layer_has_cached
  has_cached-eq now found c e = rw (e, check_layer_has_cached) refl

  -- When the locations of the layer are read from the store, checkLayerHasCached answers with a static
  -- location that passes the check of its node, such that none that was answered for less often does;
  -- if no static location passes, with such a location of a container runtime; and fails if none of
  -- them passes either. The node that it answers with is counted.
  pub check_layer_has_cached_lem :
      (now : ℕ) (found : Found) (c : Caches Server)
      → query_layers redis req.digest now c.cache_store ≡ some found
      → let (o, c') =
          check_layer_has_cached redis check_static check_oci req content_length now c in
        IsOutcome found c o c'
  check_layer_has_cached_lem now found c e =
      subst (λ (p : Option DownloadLayerResponse × Caches Server). IsOutcome found c p.0 p.1)
        (sym (has_cached-eq now found c e)) (check_found_lem found c)
