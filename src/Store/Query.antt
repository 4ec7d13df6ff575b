-- ===== src/Store/Query.antt =====
-- pkg/store/redis.go: what QueryLayers returns.
use Prim.Native.Nat.{ℕ, ◌≤◌}
use accelerboat.Base.{
  ◌≡◌, refl, sym, ap, ◌∙◌, ◌⊎◌, inl, inr, Bool, true, false, Option, none, some, some_inj, List, [],
  ◌∷◌, arith, length, take, length-take, if◌then◌else◌, Option-cases, subst,
}
use accelerboat.Base.Int.{pos, ltb_ℤ}
use accelerboat.Base.Sort.{
  All, In, All-take, All-sort_by, In-sort_by, In-take, sort_by, Sorted, sort_by-Sorted, Sorted-take,
}
use accelerboat.Base.Text.{Text}
use accelerboat.Store.{
  Found, add_found, LayerLocatedInfo, Redis, RedisStore, layer_key, read_field, sub_int64,
  is_static, collect, later, top_n, query_layers,
}
use accelerboat.Store.Keys.{read_field-key}

later_asym : (a b : LayerLocatedInfo) → later a b ≡ true → later b a ≡ false
later_asym a b h = ground arith

later_trans : (a b c : LayerLocatedInfo) → later b a ≡ false → later c b ≡ false → later c a ≡ false
later_trans a b c h k = ground arith

-- The slice that a type goes to.
abbrev pub side : Bool → Found → List LayerLocatedInfo
side true found = found.0
side false found = found.1

-- What the loop adds to one of the slices.
IsRead : Text → ℕ → List (Text × Text) → Bool → LayerLocatedInfo → Type 0
IsRead layer now fs b info =
    (is_static info.type ≡ b) × ((f : Text × Text) × In f fs × (read_field layer now f ≡ some info))

IsRead-cons :
    (layer : Text) (now : ℕ) (f : Text × Text) (fs : List (Text × Text)) (b : Bool)
    (info : LayerLocatedInfo)
    → IsRead layer now fs b info
    → IsRead layer now (f ∷ fs) b info
unfolding IsRead
IsRead-cons layer now f fs b info (e, (g, m, r)) = (e, (g, inr m, r))

pub All-imp :
    {P Q : LayerLocatedInfo → Type 0} (xs : List LayerLocatedInfo)
    → ((x : LayerLocatedInfo) → P x → Q x)
    → All P xs
    → All Q xs
All-imp [] f h = tt
All-imp (x ∷ xs) f (hx, h) = (f x hx, All-imp xs f h)

All-add_found :
    (P : LayerLocatedInfo → Type 0) (o : Option LayerLocatedInfo) (b : Bool) (found : Found)
    → ((i : LayerLocatedInfo) → o ≡ some i → is_static i.type ≡ b → P i)
    → All P (side b found)
    → All P (side b (add_found o found))
unfolding add_found
All-add_found P none b found f h = h
All-add_found P (some i) b found f h = added (is_static i.type) b (λ e. f i refl e) h
  where
    added :
        (t b : Bool)
        → (t ≡ b → P i)
        → All P (side b found)
        → All P (side b (if t then (i ∷ found.0, found.1) else (found.0, i ∷ found.1)))
    added true true f h = (f refl, h)
    added true false f h = h
    added false true f h = h
    added false false f h = (f refl, h)

In-add_found :
    (o : Option LayerLocatedInfo) (b : Bool) (found : Found) (a : LayerLocatedInfo)
    → (o ≡ some a) × (is_static a.type ≡ b) ⊎ In a (side b found)
    → In a (side b (add_found o found))
unfolding add_found
In-add_found none b found a (inl (e, t)) = absurd (cc)
In-add_found none b found a (inr m) = m
In-add_found (some i) b found a h = added (is_static i.type) b (given h)
  where
    given :
        (some i ≡ some a) × (is_static a.type ≡ b) ⊎ In a (side b found)
        → (i ≡ a) × (is_static i.type ≡ b) ⊎ In a (side b found)
    given (inl (e, t)) = inl (some_inj e, ground (arith, some_inj e))
    given (inr m) = inr m

    added :
        (t b : Bool)
        → (i ≡ a) × (t ≡ b) ⊎ In a (side b found)
        → In a (side b (if t then (i ∷ found.0, found.1) else (found.0, i ∷ found.1)))
    added true true (inl (e, _)) = inl e
    added true true (inr m) = inr m
    added true false (inl (_, e)) = absurd (cc)
    added true false (inr m) = m
    added false true (inl (_, e)) = absurd (cc)
    added false true (inr m) = m
    added false false (inl (e, _)) = inl e
    added false false (inr m) = inr m

collect_sound :
    (layer : Text) (now : ℕ) (fs : List (Text × Text)) (b : Bool)
    → All (IsRead layer now fs b) (side b (collect layer now fs))
unfolding collect
collect_sound layer now [] true = tt
collect_sound layer now [] false = tt
collect_sound layer now (f ∷ fs) b =
    All-add_found (IsRead layer now (f ∷ fs) b) (read_field layer now f) b (collect layer now fs)
      (λ i e t. unfold IsRead in (t, (f, inl refl, e)))
      (All-imp _ (IsRead-cons layer now f fs b) (collect_sound layer now fs b))

collect_complete :
    (layer : Text) (now : ℕ) (fs : List (Text × Text)) (f : Text × Text) (info : LayerLocatedInfo)
    → In f fs
    → read_field layer now f ≡ some info
    → In info (side (is_static info.type) (collect layer now fs))
unfolding collect
collect_complete layer now [] f info m e = absurd m
collect_complete layer now (g ∷ fs) f info (inl same) e =
    In-add_found (read_field layer now g) (is_static info.type) (collect layer now fs) info
      (inl (subst (λ h. read_field layer now h ≡ some info) (sym same) e, refl))
collect_complete layer now (g ∷ fs) f info (inr m) e =
    In-add_found (read_field layer now g) (is_static info.type) (collect layer now fs) info
      (inr (collect_complete layer now fs f info m e))

side-map :
    (g : List LayerLocatedInfo → List LayerLocatedInfo) (b : Bool) (found : Found)
    → side b (g found.0, g found.1) ≡ g (side b found)
side-map g true found = refl
side-map g false found = refl

module _ (redis : Redis) where
  open redis use {Server, hget_all, field, hget_all_sound, hget_all_complete}

  -- A location that a server's field gives.
  abbrev pub IsStored : Server → Text → ℕ → Bool → LayerLocatedInfo → Type 0
  IsStored s layer now b info =
      (is_static info.type ≡ b)
      × (info.layer ≡ layer)
      × (ltb_ℤ (pos 120) (sub_int64 (pos now) info.ts) ≡ false)
      × ((v : Text) × (field s layer (layer_key info.located info.type) ≡ some v)
          × (read_field layer now (layer_key info.located info.type, v) ≡ some info))

  IsStored-read :
      (s : Server) (layer : Text) (now : ℕ) (fs : List (Text × Text)) (b : Bool)
      (info : LayerLocatedInfo)
      → hget_all layer s ≡ some fs
      → IsRead layer now fs b info
      → IsStored s layer now b info
  unfolding IsRead
  IsStored-read s layer now fs b info e (t, ((k, v), m, r)) =
      let (key, same, fresh) = read_field-key layer now k v info r in
      (
        t,
        same,
        fresh,
        (
          v,
          subst (λ j. field s layer j ≡ some v) key (hget_all_sound layer s fs e k v m),
          subst (λ j. read_field layer now (j, v) ≡ some info) key r,
        ),
      )

  query_layers-eq :
      (layer : Text) (now : ℕ) (r : RedisStore Server) (found : Found)
      → query_layers redis layer now r ≡ some found
      → (fs : List (Text × Text)) × (hget_all layer r.server ≡ some fs)
        × ((b : Bool) → side b found ≡ take top_n (sort_by later (side b (collect layer now fs))))
  unfolding query_layers
  query_layers-eq layer now r found e = elim (Option-cases (hget_all layer r.server)) [
    | inl none' ↦ absurd (cc (rw (none', query_layers) at e))
    | inr (fs, some') ↦ (
      fs,
      some',
      λ b.
          ap (side b) (sym (some_inj (rw (some', query_layers) at e)))
          ∙ side-map (λ xs. take top_n (sort_by later xs)) b (collect layer now fs),
    )
  ]

-- A successful query returns two lists, for the static layers and for those of the container
-- runtimes: each has at most 50 locations, the latest first, and each location is stored for the
-- layer under the key of its node and type, with a value of at most 120 seconds of age.
pub query_layers_sound :
    (redis : Redis) (layer : Text) (now : ℕ) (r : RedisStore redis.Server) (found : Found)
    (b : Bool)
    → query_layers redis layer now r ≡ some found
    → All (IsStored redis r.server layer now b) (side b found)
      × (length (side b found) ≤ top_n)
      × Sorted later (side b found)
query_layers_sound redis layer now r found b e =
    let (fs, read, same) = query_layers-eq redis layer now r found e in
    rw (same b) (
      All-take (IsStored redis r.server layer now b) top_n
          (sort_by later (side b (collect layer now fs)))
          (All-sort_by later (IsStored redis r.server layer now b) (side b (collect layer now fs)) (
            All-imp (side b (collect layer now fs))
              (λ i h. IsStored-read redis r.server layer now fs b i read h)
              (collect_sound layer now fs b))),
      omega (arith, length-take top_n (sort_by later (side b (collect layer now fs)))),
      Sorted-take later top_n (sort_by later (side b (collect layer now fs)))
          (sort_by-Sorted later later_asym later_trans (side b (collect layer now fs))),
    )

-- A stored location that is fresh and has the right form is in the list of its kind, unless that
-- list is full and every location in it is at least as late.
pub query_layers_complete :
    (redis : Redis) (layer : Text) (now : ℕ) (r : RedisStore redis.Server) (found : Found)
    (k v : Text) (info : LayerLocatedInfo)
    → query_layers redis layer now r ≡ some found
    → redis.field r.server layer k ≡ some v
    → read_field layer now (k, v) ≡ some info
    → In info (side (is_static info.type) found)
      ⊎ (length (side (is_static info.type) found) ≡ top_n)
        × All (λ i. later info i ≡ false) (side (is_static info.type) found)
query_layers_complete redis layer now r found k v info e stored reads =
    let (fs, read, same) = query_layers-eq redis layer now r found e in
    let xs = side (is_static info.type) (collect layer now fs) in
    rw (same (is_static info.type)) (
      In-take later info top_n (sort_by later xs) (sort_by-Sorted later later_asym later_trans xs) (
        In-sort_by later info xs (
          collect_complete layer now fs (k, v) info
            (redis.hget_all_complete layer r.server fs read k v stored) reads)))
