-- ===== src/Selector/Master.antt =====
-- selector.go: which endpoint CurrentMaster elects.
use Prim.Native.Nat.{ℕ, ◌+◌, ◌≤◌, ◌<◌}
use accelerboat.Base.{
  ◌≡◌, refl, sym, ◌⊎◌, inl, inr, true, false, List, [], ◌∷◌, arith, ltb, length, Bool-cases, subst,
}
use accelerboat.Base.Sort.{All, In}
use accelerboat.Base.Text.{Text}
use accelerboat.Selector.{ascii_from, string_ascii, is_preferred, master_loop, current_master}

-- What CurrentMaster returns, for a list of endpoints and the best one so far.
IsElected : Text → List Text → Text → Text → Type 0
IsElected master_ip eps best r =
    (In r eps × (is_preferred master_ip r ≡ true))
    ⊎ All (λ ep. is_preferred master_ip ep ≡ false) eps
      × All (λ ep. string_ascii ep ≤ string_ascii r) eps
      × (string_ascii best ≤ string_ascii r)
      × (In r eps ⊎ (r ≡ best))

IsElected-now :
    (master_ip ep best : Text) (eps : List Text)
    → is_preferred master_ip ep ≡ true
    → IsElected master_ip (ep ∷ eps) best ep
unfolding IsElected
IsElected-now master_ip ep best eps wanted = inl (inl refl, wanted)

heavier :
    (master_ip ep best : Text) (eps : List Text)
    → ltb (string_ascii best) (string_ascii ep) ≡ true
    → is_preferred master_ip ep ≡ false
    → (r : Text) → IsElected master_ip eps ep r
    → IsElected master_ip (ep ∷ eps) best r
unfolding IsElected
heavier master_ip ep best eps better plain r (inl (m, w)) = inl (inr m, w)
heavier master_ip ep best eps better plain r (inr (ns, ws, b, o)) =
    inr (
      (plain, ns),
      (b, ws),
      ground arith,
      elim o [ inl m ↦ inl (inr m) | inr e ↦ inl (inl (sym e)) ],
    )

lighter :
    (master_ip ep best : Text) (eps : List Text)
    → ltb (string_ascii best) (string_ascii ep) ≡ false
    → is_preferred master_ip ep ≡ false
    → (r : Text) → IsElected master_ip eps best r
    → IsElected master_ip (ep ∷ eps) best r
unfolding IsElected
lighter master_ip ep best eps worse plain r (inl (m, w)) = inl (inr m, w)
lighter master_ip ep best eps worse plain r (inr (ns, ws, b, o)) =
    inr ((plain, ns), (ground arith, ws), b, elim o [ inl m ↦ inl (inr m) | inr e ↦ inr e ])

loop_wanted :
    (master_ip ep : Text) (eps : List Text) (a : ℕ) (best : Text)
    → is_preferred master_ip ep ≡ true
    → master_loop master_ip (ep ∷ eps) a best ≡ ep
unfolding master_loop
loop_wanted master_ip ep eps a best wanted = rw wanted refl

loop_better :
    (master_ip ep : Text) (eps : List Text) (a : ℕ) (best : Text)
    → is_preferred master_ip ep ≡ false
    → ltb a (string_ascii ep) ≡ true
    → master_loop master_ip (ep ∷ eps) a best ≡ master_loop master_ip eps (string_ascii ep) ep
unfolding master_loop
loop_better master_ip ep eps a best plain better = rw (plain, better) refl

loop_worse :
    (master_ip ep : Text) (eps : List Text) (a : ℕ) (best : Text)
    → is_preferred master_ip ep ≡ false
    → ltb a (string_ascii ep) ≡ false
    → master_loop master_ip (ep ∷ eps) a best ≡ master_loop master_ip eps a best
unfolding master_loop
loop_worse master_ip ep eps a best plain worse = rw (plain, worse) refl

nothing_left : (master_ip best : Text) → IsElected master_ip [] best best
unfolding IsElected
nothing_left master_ip best = inr (tt, tt, omega arith, inr refl)

master_loop_nil : (master_ip : Text) (a : ℕ) (best : Text) → master_loop master_ip [] a best ≡ best
unfolding master_loop
master_loop_nil master_ip a best = refl

master_loop_lem :
    (master_ip : Text) (eps : List Text) (best : Text)
    → IsElected master_ip eps best (master_loop master_ip eps (string_ascii best) best)
master_loop_lem master_ip [] best =
    subst (IsElected master_ip [] best) (sym (master_loop_nil master_ip _ best))
      (nothing_left master_ip best)
master_loop_lem master_ip (ep ∷ eps) best = elim (Bool-cases (is_preferred master_ip ep)) [
  | inl wanted ↦
      subst (IsElected master_ip (ep ∷ eps) best) (sym (loop_wanted master_ip ep eps _ best wanted))
        (IsElected-now master_ip ep best eps wanted)
  | inr plain ↦ elim (Bool-cases (ltb (string_ascii best) (string_ascii ep))) [
    | inl better ↦
        subst (IsElected master_ip (ep ∷ eps) best)
          (sym (loop_better master_ip ep eps _ best plain better))
          (heavier master_ip ep best eps better plain _ (master_loop_lem master_ip eps ep))
    | inr worse ↦
        subst (IsElected master_ip (ep ∷ eps) best)
          (sym (loop_worse master_ip ep eps _ best plain worse))
          (lighter master_ip ep best eps worse plain _ (master_loop_lem master_ip eps best))
  ]
]

-- CurrentMaster returns an endpoint at the configured master address if there is one. If there is
-- none, no endpoint weighs more than the one it returns, and it returns an endpoint, or the empty text
-- when no endpoint has a positive weight.
pub current_master_lem :
    (master_ip : Text) (eps : List Text)
    → let r = current_master master_ip eps in
      (In r eps × (is_preferred master_ip r ≡ true))
      ⊎ All (λ ep. is_preferred master_ip ep ≡ false) eps
        × All (λ ep. string_ascii ep ≤ string_ascii r) eps
        × (In r eps ⊎ (r ≡ []))
unfolding current_master string_ascii IsElected
current_master_lem master_ip eps = elim (master_loop_lem master_ip eps []) [
  | inl h ↦ inl h
  | inr (ns, ws, b, o) ↦ inr (ns, ws, o)
]

-- The sum of the bytes.
abbrev pub total : Text → ℕ
total [] = 0
total (c ∷ s) = c + total s

abbrev indices : ℕ → Text → ℕ
indices i [] = 0
indices i (c ∷ s) = i + indices (i + 1) s

ascii_from-eq : (i : ℕ) (s : Text) → ascii_from i s ≡ indices i s + total s
unfolding ascii_from
ascii_from-eq i [] = omega arith
ascii_from-eq i (c ∷ s) = omega (arith, ascii_from-eq (i + 1) s)

indices-length : (i : ℕ) (s t : Text) → length s ≡ length t → indices i s ≡ indices i t
indices-length i [] [] e = refl
indices-length i [] (d ∷ t) e = absurd (omega arith)
indices-length i (c ∷ s) [] e = absurd (omega arith)
indices-length i (c ∷ s) (d ∷ t) e = omega (arith, indices-length (i + 1) s t (omega arith))

-- The index in the weight does not tell orders apart: texts of one length and one sum of bytes weigh
-- the same.
string_ascii-total :
    (s t : Text) → length s ≡ length t → total s ≡ total t → string_ascii s ≡ string_ascii t
unfolding string_ascii
string_ascii-total s t l e =
    omega (arith, ascii_from-eq 0 s, ascii_from-eq 0 t, indices-length 0 s t l)

-- With no configured master, two endpoints of one length and one sum of bytes (such as two addresses
-- with digits exchanged) are both elected, each by the nodes that list it first.
pub current_master_by_order :
    (a b : Text)
    → length a ≡ length b
    → total a ≡ total b
    → 0 < string_ascii a
    → (current_master [] (a ∷ b ∷ []) ≡ a) × (current_master [] (b ∷ a ∷ []) ≡ b)
unfolding current_master
current_master_by_order a b l e w = ground (arith, string_ascii-total a b l e)
