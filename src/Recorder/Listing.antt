-- ===== src/Recorder/Listing.antt =====
-- pkg/recorder/recorder.go: what List returns when there is no event file.
use Prim.Native.Nat.{ℕ, zero, suc, ◌+◌, ◌-◌, ◌%◌, ◌≤◌, ◌<◌, min}
use accelerboat.Base.{
  ◌≡◌, ◌≢◌, refl, sym, ap, ◌∙◌, inl, inr, List, ◌∷◌, ◌++◌, arith, ◌==◌, if◌then◌else◌, length, take,
  drop, length-drop, get_or, Bool-cases,
}
use accelerboat.Base.Int.{ℤ, pos, negsuc}
use accelerboat.Base.Slices.{
  last, take_all, drop-cons, get_or-append_lt, get_or-append_ge, get_or-drop, get_or-take,
}
use accelerboat.Recorder.{
  Event, Recorder, zero_event, default_limit, positive_or, copy_out, list_buffer,
}
use accelerboat.Recorder.Ring.{IsRing, contents, length-contents}

-- Where List starts to read.
abbrev start : Recorder → ℕ
start r = if r.count == r.size then (r.next + r.size - r.count) % r.size else 0

mod_small : (a s : ℕ) → a < s → a % s ≡ a
mod_small a s h = grind arith

mod_wrap : (a s : ℕ) → s ≤ a → a < s + s → a % s ≡ a - s
mod_wrap a s h k = grind arith

turned :
    (xs : List Event) (n i : ℕ)
    → n < length xs
    → i < length xs
    → get_or xs ((n + i) % length xs) zero_event ≡ get_or (drop n xs ++ take n xs) i zero_event
turned xs n i hn hi = ground (
  arith,
  mod_small (n + i) (length xs),
  mod_wrap (n + i) (length xs),
  get_or-append_lt (drop n xs) (take n xs) i zero_event,
  get_or-append_ge (drop n xs) (take n xs) i zero_event,
  get_or-drop n xs i zero_event,
  get_or-take n xs (i - length (drop n xs)) zero_event,
  length-drop n xs,
)

-- Cell start + i holds the i-th oldest event.
cell :
    (r : Recorder)
    → IsRing r
    → (i : ℕ) → i < r.count
    → get_or r.events ((start r + i) % r.size) zero_event ≡ get_or (contents r) i zero_event
cell r h i lt = elim (Bool-cases (r.count == r.size)) [
  | inl full ↦ rw full (full_cell (ground arith))
  | inr part ↦ rw part (
      ground
        (arith, mod_small (0 + i) r.size, get_or-take r.count r.events i zero_event, h.count_le))
]
  where
    full_cell :
        r.count ≡ r.size
        → get_or r.events (((r.next + r.size - r.count) % r.size + i) % r.size) zero_event
          ≡ get_or (drop r.next r.events ++ take r.next r.events) i zero_event
    full_cell full =
        ground (arith, mod_small r.next r.size, turned r.events r.next i, h.sized, h.next_lt)

copy_out-eq-take :
    (r : Recorder) (h : IsRing r) (i n : ℕ)
    → i + n ≤ r.count
    → copy_out r (start r) i n ≡ take n (drop i (contents r))
unfolding copy_out
copy_out-eq-take r h i zero fits = refl
copy_out-eq-take r h i (suc n) fits =
    rw (drop-cons i (contents r) zero_event (omega (arith, length-contents r h)))
      (λ k. cell r h i (omega arith) k ∷ copy_out-eq-take r h (i + 1) n (omega arith) k)

take-min : (n : ℕ) (xs : List Event) → take (min (length xs) n) xs ≡ take n xs
take-min n xs = ground (arith, take_all n xs, take_all (length xs) xs)

-- Without an event file List returns, for every limit (100 where it is not positive), the oldest
-- events of a well-formed buffer, oldest first, and all of them when they are no more than the limit.
pub list_buffer-eq-take :
    (limit : ℤ) (r : Recorder)
    → IsRing r
    → list_buffer limit r ≡ take (positive_or default_limit limit) (contents r)
unfolding list_buffer
list_buffer-eq-take limit r h =
    copy_out-eq-take r h 0 (min r.count n) (omega arith)
    ∙ ap (λ k. take (min k n) (contents r)) (sym (length-contents r h))
    ∙ take-min n (contents r)
  where
    n : ℕ
    n = positive_or default_limit limit

positive_or_pos : (d : ℕ) (z : ℤ) → 0 < d → 0 < positive_or d z
positive_or_pos d (pos zero) h = h
positive_or_pos d (pos (suc n)) h = omega arith
positive_or_pos d (negsuc n) h = h

-- The doc of List promises the most recent events. For every well-formed buffer with more events
-- than the limit, it does not return them: unless its oldest event equals the event that the most
-- recent `limit` events begin with, the result is another list.
pub list_buffer-ne-last :
    (limit : ℤ) (r : Recorder)
    → IsRing r
    → positive_or default_limit limit < r.count
    → get_or (contents r) 0 zero_event
      ≢ get_or (contents r) (r.count - positive_or default_limit limit) zero_event
    → list_buffer limit r ≢ last (positive_or default_limit limit) (contents r)
list_buffer-ne-last limit r h more differ e = differ (
    ground (
      arith,
      positive_or_pos default_limit limit (omega arith),
      ap (λ xs. get_or xs 0 zero_event) (sym (list_buffer-eq-take limit r h) ∙ e),
      get_or-take n (contents r) 0 zero_event,
      get_or-drop (length (contents r) - n) (contents r) 0 zero_event,
      length-contents r h,
    ))
  where
    n : ℕ
    n = positive_or default_limit limit
