-- ===== src/Watcher/Log.antt =====
-- watcher.go: what the store says of the node's files is what happened to them last.
use Prim.Native.Nat.{ℕ}
use accelerboat.Base.{
  ◌≡◌, ◌≢◌, refl, sym, inl, inr, not, ◌&&◌, ◌||◌, Option, none, some, List, [], ◌∷◌, arith,
  if◌then◌else◌, Option-cases, ifs_ind, subst,
}
use accelerboat.Base.Text.{Text, text_eq, text_eq_iff, text_eq_refl, has_suffix, trim_suffix}
use accelerboat.Base.Keys.{add_key}
use accelerboat.Store.{
  Redis, RedisStore, static_file, layer_key, build_layer_key, build_layer_value, save_layer,
  save_static_layer, delete_located, delete_static_layer,
}
use accelerboat.Watcher.{
  suffix, Visit, visit_failed, visit, Op, create, remove, other_op, Signal, event, tick,
  watch_error, events_closed, errors_closed, cancelled, base, try_save, try_delete,
  init_layer_files, tick_all, on_event, watch,
}

-- What is known of the files: for each digest the value of its location, if it has one.
abbrev pub Known : Type 0
Known = Text → Option Text

abbrev pub know : Text → Option Text → Known → Known
know digest v k j = if text_eq digest j then v else k j

abbrev pub after_walk : List Visit → ℕ → Known → Known
after_walk [] now k = k
after_walk (visit_failed ∷ vs) now k = k
after_walk (visit fp name is_dir ∷ vs) now k = after_walk vs now (
    if is_dir || not (has_suffix name suffix)
    then k
    else know (trim_suffix name suffix) (some (build_layer_value fp now)) k)

abbrev pub after_walks : List (List Visit) → ℕ → Known → Known
after_walks [] now k = k
after_walks (walk ∷ walks) now k = after_walks walks now (after_walk walk now k)

abbrev pub after_event : Text → Op → ℕ → Known → Known
after_event name op now k = if not (has_suffix name suffix) then k else elim op [
  | create ↦ know (trim_suffix (base name) suffix) (some (build_layer_value name now)) k
  | remove ↦ know (trim_suffix (base name) suffix) none k
  | other_op ↦ k
]

-- What is known after the signals, up to the end of the loop.
abbrev pub after : List Signal → Known → Known
after [] k = k
after (event name op now ∷ xs) k = after xs (after_event name op now k)
after (tick walks now ∷ xs) k = after xs (after_walks walks now k)
after (watch_error ∷ xs) k = after xs k
after (events_closed ∷ xs) k = k
after (errors_closed ∷ xs) k = k
after (cancelled ∷ xs) k = k

module _ (redis : Redis) (address : Text) where
  -- The store is the node's, and its static locations of the node are the known ones; the fields of
  -- other keys are as they were at the start, in `s0`.
  abbrev pub Reflects : redis.Server → Known → RedisStore redis.Server → Type 0
  Reflects s0 k r =
      (r.address ≡ address)
      × ((digest : Text) → redis.field r.server digest (layer_key address static_file) ≡ k digest)
      × ((digest key : Text)
          → layer_key address static_file ≢ key
          → redis.field r.server digest key ≡ redis.field s0 digest key)

module _ (redis : Redis) (address : Text)
    (hset_works : (l k v : Text) (s : redis.Server) → redis.hset l k v s ≢ none)
    (hdel_works : (l k : Text) (s : redis.Server) → redis.hdel l k s ≢ none) where
  abbrev own_key : Text
  own_key = layer_key address static_file

  try_save-eq :
      (digest fp : Text) (now : ℕ) (r : RedisStore redis.Server) (s' : redis.Server)
      → redis.hset digest (layer_key r.address static_file) (build_layer_value fp now) r.server
        ≡ some s'
      → try_save redis digest fp now r
        ≡ record r { server = s'; local_cache = add_key digest r.local_cache }
  unfolding try_save save_static_layer save_layer build_layer_key
  try_save-eq digest fp now r s' e =
      rw (e, try_save, save_static_layer, save_layer, build_layer_key) refl

  try_delete-eq :
      (digest : Text) (r : RedisStore redis.Server) (s' : redis.Server)
      → redis.hdel digest (layer_key r.address static_file) r.server ≡ some s'
      → try_delete redis digest r ≡ record r { server = s' }
  unfolding try_delete delete_static_layer delete_located
  try_delete-eq digest r s' e = rw (e, try_delete, delete_static_layer, delete_located) refl

  set_field :
      (s0 s s' : redis.Server) (k : Known) (digest : Text) (v : Option Text)
      → ((m j : Text)
          → redis.field s' m j
            ≡ (if text_eq digest m && text_eq own_key j then v else redis.field s m j))
      → ((d : Text) → redis.field s d own_key ≡ k d)
      → ((d key : Text) → own_key ≢ key → redis.field s d key ≡ redis.field s0 d key)
      → ((d : Text) → redis.field s' d own_key ≡ know digest v k d)
        × ((d key : Text) → own_key ≢ key → redis.field s' d key ≡ redis.field s0 d key)
  set_field s0 s s' k digest v sets at others = (
    λ d. ground (arith, sets d own_key, at d, text_eq_refl own_key),
    λ d key ne. ground (arith, sets d key, others d key, text_eq_iff own_key key),
  )

  try_save-Reflects :
      (s0 : redis.Server) (k : Known) (digest fp : Text) (now : ℕ) (r : RedisStore redis.Server)
      → Reflects redis address s0 k r
      → Reflects redis address s0
          (know digest (some (build_layer_value fp now)) k)
          (try_save redis digest fp now r)
  try_save-Reflects s0 k digest fp now r (same, at, others) =
      elim (Option-cases (redis.hset digest (layer_key r.address static_file) v r.server)) [
        | inl none' ↦ absurd (hset_works _ _ _ _ none')
        | inr (s', e) ↦
            let sets = redis.hset_lem digest own_key v r.server s' (
              subst (λ a. redis.hset digest (layer_key a static_file) v r.server ≡ some s') same
                e) in
            let (at', others') = set_field s0 r.server s' k digest (some v) sets at others in
            subst (Reflects redis address s0 (know digest (some v) k))
              (sym (try_save-eq digest fp now r s' e)) (same, at', others')
      ]
    where
      v : Text
      v = build_layer_value fp now

  try_delete-Reflects :
      (s0 : redis.Server) (k : Known) (digest : Text) (r : RedisStore redis.Server)
      → Reflects redis address s0 k r
      → Reflects redis address s0 (know digest none k) (try_delete redis digest r)
  try_delete-Reflects s0 k digest r (same, at, others) =
      elim (Option-cases (redis.hdel digest (layer_key r.address static_file) r.server)) [
        | inl none' ↦ absurd (hdel_works _ _ _ none')
        | inr (s', e) ↦
            let sets = redis.hdel_lem digest own_key r.server s' (
              subst (λ a. redis.hdel digest (layer_key a static_file) r.server ≡ some s') same e) in
            let (at', others') = set_field s0 r.server s' k digest none sets at others in
            subst (Reflects redis address s0 (know digest none k))
              (sym (try_delete-eq digest r s' e)) (same, at', others')
      ]

  walk-Reflects :
      (s0 : redis.Server) (vs : List Visit) (now : ℕ) (k : Known) (r : RedisStore redis.Server)
      → Reflects redis address s0 k r
      → Reflects redis address s0 (after_walk vs now k) (init_layer_files redis vs now r).1
  unfolding init_layer_files
  walk-Reflects s0 [] now k r h = h
  walk-Reflects s0 (visit_failed ∷ vs) now k r h = h
  walk-Reflects s0 (visit fp name is_dir ∷ vs) now k r h = walk-Reflects s0 vs now _ _ (
      ifs_ind (Reflects redis address s0) (is_dir || not (has_suffix name suffix)) _ _ _ _
        (λ skip. h) (λ keep. try_save-Reflects s0 k (trim_suffix name suffix) fp now r h))

  walks-Reflects :
      (s0 : redis.Server) (walks : List (List Visit)) (now : ℕ) (k : Known)
      (r : RedisStore redis.Server)
      → Reflects redis address s0 k r
      → Reflects redis address s0 (after_walks walks now k) (tick_all redis walks now r)
  unfolding tick_all
  walks-Reflects s0 [] now k r h = h
  walks-Reflects s0 (walk ∷ walks) now k r h =
      walks-Reflects s0 walks now (after_walk walk now k) (init_layer_files redis walk now r).1
        (walk-Reflects s0 walk now k r h)

  event-Reflects :
      (s0 : redis.Server) (name : Text) (op : Op) (now : ℕ) (k : Known)
      (r : RedisStore redis.Server)
      → Reflects redis address s0 k r
      → Reflects redis address s0 (after_event name op now k) (on_event redis name op now r)
  unfolding on_event
  event-Reflects s0 name op now k r h =
      ifs_ind (Reflects redis address s0) (not (has_suffix name suffix)) _ _ _ _ (λ skip. h)
        (λ keep. by_op op)
    where
      by_op :
          (o : Op)
          → Reflects redis address s0
              (elim o [
                | create ↦
                    know (trim_suffix (base name) suffix) (some (build_layer_value name now)) k
                | remove ↦ know (trim_suffix (base name) suffix) none k
                | other_op ↦ k
              ])
              (elim o [
                | create ↦ try_save redis (trim_suffix (base name) suffix) name now r
                | remove ↦ try_delete redis (trim_suffix (base name) suffix) r
                | other_op ↦ r
              ])
      by_op create = try_save-Reflects s0 k (trim_suffix (base name) suffix) name now r h
      by_op remove = try_delete-Reflects s0 k (trim_suffix (base name) suffix) r h
      by_op other_op = h

  -- As long as Redis does not fail, the loop of Watch keeps the node's static locations in Redis equal
  -- to what is known of its files: for each digest, a creation or a walk gives the location with its
  -- time, a removal takes it away, and what came last counts, up to the end of the loop. It changes no
  -- field of another key.
  pub watch-Reflects :
      (s0 : redis.Server) (xs : List Signal) (k : Known) (r : RedisStore redis.Server)
      → Reflects redis address s0 k r
      → Reflects redis address s0 (after xs k) (watch redis xs r)
  unfolding watch
  watch-Reflects s0 [] k r h = h
  watch-Reflects s0 (event name op now ∷ xs) k r h =
      watch-Reflects s0 xs (after_event name op now k) (on_event redis name op now r)
        (event-Reflects s0 name op now k r h)
  watch-Reflects s0 (tick walks now ∷ xs) k r h =
      watch-Reflects s0 xs (after_walks walks now k) (tick_all redis walks now r)
        (walks-Reflects s0 walks now k r h)
  watch-Reflects s0 (watch_error ∷ xs) k r h = watch-Reflects s0 xs k r h
  watch-Reflects s0 (events_closed ∷ xs) k r h = h
  watch-Reflects s0 (errors_closed ∷ xs) k r h = h
  watch-Reflects s0 (cancelled ∷ xs) k r h = h
