-- ===== src/Store/Memory.antt =====
-- A Redis in memory, which shows that the laws of the parameter can hold.
use accelerboat.Base.{
  ◌≡◌, inl, inr, false, ◌&&◌, Option, none, some, List, [], ◌∷◌, arith, if◌then◌else◌, Bool-cases,
  some_inj, ap, sym, subst,
}
use accelerboat.Base.Sort.{In}
use accelerboat.Base.Keys.{delete}
use accelerboat.Base.Text.{Text, text_eq, text_eq_iff, text_eq→eq}
use accelerboat.Store.{Redis}

-- The commands that were answered, latest first: `none` is a deletion.
abbrev pub Log : Type 0
Log = List (Text × Text × Option Text)

unfoldable pub log_field : Log → Text → Text → Option Text
log_field [] m j = none
log_field ((l, k, v) ∷ s) m j = if text_eq l m && text_eq k j then v else log_field s m j

unfoldable pub put : Text → Option Text → List (Text × Text) → List (Text × Text)
put k none fs = delete k fs
put k (some v) fs = (k, v) ∷ delete k fs

unfoldable pub log_all : Text → Log → List (Text × Text)
log_all m [] = []
log_all m ((l, k, v) ∷ s) = let rest = log_all m s in if text_eq l m then put k v rest else rest

In-delete :
    (k j v : Text) (fs : List (Text × Text))
    → In (j, v) (delete k fs)
    → (text_eq k j ≡ false) × In (j, v) fs
unfolding delete
In-delete k j v [] m = elim m [ ]
In-delete k j v ((i, w) ∷ fs) m = elim (Bool-cases (text_eq i k)) [
  | inl hit ↦ let (ne, r) = In-delete k j v fs (rw hit at m) in (ne, inr r)
  | inr miss ↦ elim (rw miss at m) [
    | inl e ↦
        (ground (arith, text_eq_iff k j, text_eq_iff i k, ap (λ (p : Text × Text). p.0) e), inl e)
    | inr r ↦ let (ne, r') = In-delete k j v fs r in (ne, inr r')
  ]
]

delete-In :
    (k j v : Text) (fs : List (Text × Text))
    → text_eq k j ≡ false
    → In (j, v) fs
    → In (j, v) (delete k fs)
unfolding delete
delete-In k j v [] ne m = elim m [ ]
delete-In k j v ((i, w) ∷ fs) ne (inl e) =
    let miss : text_eq i k ≡ false =
      ground (arith, text_eq_iff k j, text_eq_iff i k, ap (λ (p : Text × Text). p.0) e) in
    rw miss (inl e)
delete-In k j v ((i, w) ∷ fs) ne (inr m) = elim (Bool-cases (text_eq i k)) [
  | inl hit ↦ rw hit (delete-In k j v fs ne m)
  | inr miss ↦ rw miss (inr (delete-In k j v fs ne m))
]

pub log_sound :
    (l : Text) (s : Log) (k v : Text) → In (k, v) (log_all l s) → log_field s l k ≡ some v
unfolding log_all log_field put
log_sound l [] k v h = elim h [ ]
log_sound l ((m, j, none) ∷ s) k v h = elim (Bool-cases (text_eq m l)) [
  | inl hit ↦
      let (ne, r) = In-delete j k v (log_all l s) (rw hit at h) in
      ground (arith, hit, ne, log_sound l s k v r)
  | inr miss ↦ ground (arith, miss, log_sound l s k v (rw miss at h))
]
log_sound l ((m, j, some w) ∷ s) k v h = elim (Bool-cases (text_eq m l)) [
  | inl hit ↦ elim (rw hit at h) [
    | inl e ↦ ground (
      arith,
      hit,
      text_eq_iff j k,
      ap (λ (p : Text × Text). p.0) e,
      ap (λ (p : Text × Text). p.1) e,
    )
    | inr m' ↦
        let (ne, r) = In-delete j k v (log_all l s) m' in
        ground (arith, hit, ne, log_sound l s k v r)
  ]
  | inr miss ↦ ground (arith, miss, log_sound l s k v (rw miss at h))
]

pub log_complete :
    (l : Text) (s : Log) (k v : Text) → log_field s l k ≡ some v → In (k, v) (log_all l s)
unfolding log_all log_field put
log_complete l [] k v h = absurd cc
log_complete l ((m, j, o) ∷ s) k v h = elim (Bool-cases (text_eq m l)) [
  | inr miss ↦ rw miss (log_complete l s k v (ground (arith, miss, h)))
  | inl hit ↦ elim (Bool-cases (text_eq j k)) [
    | inr ne ↦
        rw hit
          (kept o (delete-In j k v (log_all l s) ne (log_complete l s k v (ground (arith, ne, h)))))
    | inl same ↦ rw hit (latest o (ground (arith, hit, same, h)) (text_eq→eq j k same))
  ]
]
  where
    kept :
        (o : Option Text) → In (k, v) (delete j (log_all l s)) → In (k, v) (put j o (log_all l s))
    kept none d = d
    kept (some w) d = inr d

    latest : (o : Option Text) → o ≡ some v → j ≡ k → In (k, v) (put j o (log_all l s))
    latest none e same = absurd cc
    latest (some w) e same = inl (λ i. (same i, some_inj e i))

pub put_lem :
    (l k : Text) (v : Option Text) (s s' : Log)
    → some ((l, k, v) ∷ s) ≡ some s'
    → (m j : Text) → log_field s' m j ≡ (if text_eq l m && text_eq k j then v else log_field s m j)
unfolding log_field
put_lem l k v s s' e m j = ap (λ t. log_field t m j) (sym (some_inj e))

abbrev pub memory : Redis
memory = record {
  Server = Log;
  hset = λ l k v s. some ((l, k, some v) ∷ s);
  hdel = λ l k s. some ((l, k, none) ∷ s);
  hget_all = λ l s. some (log_all l s);
  field = log_field;
  hset_lem = λ l k v s s' e. put_lem l k (some v) s s' e;
  hdel_lem = λ l k s s' e. put_lem l k none s s' e;
  hget_all_sound = λ l s fs e k v m. log_sound l s k v (subst (In (k, v)) (sym (some_inj e)) m);
  hget_all_complete = λ l s fs e k v h. subst (In (k, v)) (some_inj e) (log_complete l s k v h);
}
