-- ===== src/Scan/Reports.antt =====
-- scanner.go: what the reports of the container runtime's layers make of the store.
use Prim.Native.Nat.{ℕ}
use accelerboat.Base.{
  ◌≡◌, ◌≢◌, refl, sym, ◌∙◌, inl, inr, true, ◌&&◌, Option, none, some, List, [], ◌∷◌, arith,
  if◌then◌else◌, Option-cases, Bool-cases, subst,
}
use accelerboat.Base.Keys.{mem, add_key}
use accelerboat.Base.Text.{Text, text_eq, text_eq_iff}
use accelerboat.Store.{
  Redis, RedisStore, containerd, layer_key, build_layer_key, build_layer_value, save_layer,
  save_oci_layer,
}
use accelerboat.Scan.{ScanHandler, parse, save_each, delete_each, report_oci_layers, reports}

-- What the location of a layer becomes by the reports.
abbrev pub reported : List (List Text × ℕ) → Text → Option Text → Option Text
reported [] l v = v
reported ((digests, now) ∷ rs) l v =
    reported rs l (if mem l (parse digests) then some (build_layer_value l now) else v)

module _ (redis : Redis) where
  save_oci_layer-eq :
      (k : Text) (now : ℕ) (r : RedisStore redis.Server) (s' : redis.Server)
      → redis.hset k (layer_key r.address containerd) (build_layer_value k now) r.server ≡ some s'
      → save_oci_layer redis containerd k k now r
        ≡ some (record r { server = s'; local_cache = add_key k r.local_cache })
  unfolding save_oci_layer save_layer build_layer_key
  save_oci_layer-eq k now r s' e = rw (e, save_oci_layer, save_layer, build_layer_key) refl

  module _ (address : Text)
      (hset_works : (l k v : Text) (s : redis.Server) → redis.hset l k v s ≢ none) where
    abbrev own_key : Text
    own_key = layer_key address containerd

    -- The layers of the list have their location with its time, and no other field is changed.
    abbrev Saved : List Text → ℕ → redis.Server → RedisStore redis.Server → Type 0
    Saved ks now s r =
        (r.address ≡ address)
        × ((l j : Text)
            → redis.field r.server l j ≡ (
                if mem l ks && text_eq own_key j
                then some (build_layer_value l now)
                else redis.field s l j))

    save_one :
        (k : Text) (now : ℕ) (r : RedisStore redis.Server)
        → r.address ≡ address
        → Saved
            (k ∷ [])
            now
            r.server
            (elim (save_oci_layer redis containerd k k now r) [ none ↦ r | some r' ↦ r' ])
    unfolding mem
    save_one k now r same =
        elim (Option-cases
          (redis.hset k (layer_key r.address containerd) (build_layer_value k now) r.server)) [
            | inl none' ↦ absurd (hset_works _ _ _ _ none')
            | inr (s', e) ↦
                let sets = redis.hset_lem k own_key (build_layer_value k now) r.server s' (
                  subst
                    (λ a.
                      redis.hset k (layer_key a containerd) (build_layer_value k now) r.server
                      ≡ some s')
                    same e) in
                subst (λ o. Saved (k ∷ []) now r.server (elim o [ none ↦ r | some r' ↦ r' ]))
                  (sym (save_oci_layer-eq k now r s' e))
                  (same, λ l j. ground (arith, sets l j, text_eq_iff k l))
          ]

    save_each-Saved :
        (ks : List Text) (now : ℕ) (r : RedisStore redis.Server)
        → r.address ≡ address
        → Saved ks now r.server (save_each redis ks now r)
    unfolding save_each mem
    save_each-Saved [] now r same = (same, λ l j. refl)
    save_each-Saved (k ∷ ks) now r same =
        let r1 : RedisStore redis.Server = elim (save_oci_layer redis containerd k k now r) [
          | none ↦ r
          | some r' ↦ r'
        ] in
        let one = save_one k now r same in
        let rest = save_each-Saved ks now r1 one.0 in
        (rest.0, λ l j. ground (arith, rest.1 l j, one.1 l j))

    report-Saved :
        (digests : List Text) (now : ℕ) (s : ScanHandler redis.Server)
        → s.has_cc ≡ true
        → s.containerd_layers ≡ []
        → s.store.address ≡ address
        → let s' = report_oci_layers redis digests now s in
          (s'.has_cc ≡ true)
          × (s'.containerd_layers ≡ [])
          × Saved (parse digests) now s.store.server s'.store
    unfolding report_oci_layers delete_each
    report-Saved digests now s cc_there empty same =
        rw (cc_there, empty, report_oci_layers)
          (refl, refl, save_each-Saved (parse digests) now s.store same)

    -- A handler that NewScanHandler made, as long as Redis does not fail: after any reports, the location
    -- of a layer on the node is that of the last report whose walk met it, with the time of that report,
    -- and else what it was. So a layer that is gone from the container runtime is never withdrawn. No
    -- field of another key changes.
    pub reports_lem :
        (rs : List (List Text × ℕ)) (s : ScanHandler redis.Server)
        → s.has_cc ≡ true
        → s.containerd_layers ≡ []
        → s.store.address ≡ address
        → (l j : Text)
        → redis.field (reports redis rs s).store.server l j ≡ (
            if text_eq (layer_key address containerd) j
            then reported rs l (redis.field s.store.server l j)
            else redis.field s.store.server l j)
    unfolding reports
    reports_lem [] s cc_there empty same l j = ground arith
    reports_lem ((digests, now) ∷ rs) s cc_there empty same l j =
        let (cc', empty', saved) = report-Saved digests now s cc_there empty same in
        let ih = reports_lem rs (report_oci_layers redis digests now s) cc' empty' saved.0 l j in
        elim (Bool-cases (text_eq own_key j)) [
          | inl own ↦ ih ∙ rw (own, saved.1 l j) (ground (arith, own))
          | inr other ↦ ih ∙ ground (arith, saved.1 l j, other)
        ]
