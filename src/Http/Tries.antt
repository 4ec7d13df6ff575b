-- ===== src/Http/Tries.antt =====
-- http.go: which of the tries of a request gives its answer.
use Prim.Native.Nat.{ℕ, zero, suc, ◌+◌, ◌≤◌, ◌<◌}
use accelerboat.Base.{
  ◌≡◌, refl, sym, ◌⊎◌, inl, inr, true, false, Option, none, some, arith, if◌then◌else◌, Bool-cases,
  subst,
}
use accelerboat.Http.{
  Response, Reply, response, failed, is_final, try_rounds, send_http_request_only_response,
}

abbrev pub IsRetried : Reply → Type 0
IsRetried (response r) = ⊥
IsRetried (failed err) = is_final err ≡ false

-- The answer that a reply ends the loop with.
abbrev pub Ends : Reply → Option Response → Type 0
Ends (response r) o = o ≡ some r
Ends (failed err) o = (is_final err ≡ true) × (o ≡ none)

-- The replies from `low` up to `high` are tried again.
abbrev pub RetriedBetween : (ℕ → Reply) → ℕ → ℕ → Type 0
RetriedBetween call low high = (j : ℕ) → low ≤ j → j < high → IsRetried (call j)

-- All `n` tries from `i` on are used and tried again, or one of them ends the loop and those before it
-- are tried again.
abbrev pub IsTried : (ℕ → Reply) → ℕ → ℕ → Option Response × ℕ → Type 0
IsTried call n i (o, calls) =
    ((calls ≡ i + n) × (o ≡ none) × RetriedBetween call i (i + n))
    ⊎ ((k : ℕ) × (calls ≡ suc k)
        × (i ≤ k)
        × (k < i + n)
        × RetriedBetween call i k
        × Ends (call k) o)

le_cases : (i j : ℕ) → i ≤ j → (i ≡ j) ⊎ (suc i ≤ j)
le_cases i j low = ground arith

IsTried-suc :
    (call : ℕ → Reply) (n i : ℕ) (out : Option Response × ℕ)
    → IsRetried (call i)
    → IsTried call n (suc i) out
    → IsTried call (suc n) i out
IsTried-suc call n i (o, calls) first tried = elim tried [
  | inl (e, nothing, rest) ↦
      inl (omega (arith, e), nothing, λ j low lt. retried (suc i + n) rest j low (omega arith))
  | inr (k, e, low, lt, rest, end) ↦ inr (k, e, omega arith, omega arith, retried k rest, end)
]
  where
    retried : (high : ℕ) → RetriedBetween call (suc i) high → RetriedBetween call i high
    retried high rest j low lt = elim (le_cases i j low) [
      | inl e ↦ subst (λ m. IsRetried (call m)) e first
      | inr less ↦ rest j less lt
    ]

try_rounds-IsTried : (call : ℕ → Reply) (n i : ℕ) → IsTried call n i (try_rounds call n i)
unfolding try_rounds
try_rounds-IsTried call zero i = inl (omega arith, refl, λ j low lt. absurd (omega arith))
try_rounds-IsTried call (suc n) i = by_reply (try_rounds-IsTried call n (suc i)) (call i) refl
  where
    by_reply :
        IsTried call n (suc i) (try_rounds call n (suc i))
        → (reply : Reply) → call i ≡ reply
        → IsTried call (suc n) i (elim reply as (λ x. Option Response × ℕ) [
          | response r ↦ (some r, suc i)
          | failed err ↦ if is_final err then (none, suc i) else try_rounds call n (suc i)
        ])
    by_reply later (response r) e = inr (
      i,
      refl,
      omega arith,
      omega arith,
      (λ j low lt. absurd (omega arith)),
      subst (λ x. Ends x (some r)) (sym e) refl,
    )
    by_reply later (failed err) e = elim (Bool-cases (is_final err)) [
      | inl final ↦
          subst
            (λ b. IsTried call (suc n) i (if b then (none, suc i) else try_rounds call n (suc i)))
            (sym final)
            (inr (
              i,
              refl,
              omega arith,
              omega arith,
              (λ j low lt. absurd (omega arith)),
              subst (λ x. Ends x none) (sym e) (final, refl),
            ))
      | inr other ↦
          subst
            (λ b. IsTried call (suc n) i (if b then (none, suc i) else try_rounds call n (suc i)))
            (sym other)
            (IsTried-suc call n i (try_rounds call n (suc i)) (subst IsRetried (sym e) other) later)
    ]

-- A request that can be made is sent at most ten times. Either all ten tries fail with errors that are
-- tried again, and there is no response; or the first try that does not fail so ends the request, with
-- its response, or with an error when it was cancelled or timed out.
pub send_http_request_only_response_lem :
    (call : ℕ → Reply) → IsTried call 10 0 (send_http_request_only_response true call)
unfolding send_http_request_only_response
send_http_request_only_response_lem call = try_rounds-IsTried call 10 0
