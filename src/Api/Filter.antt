-- ===== src/Api/Filter.antt =====
-- sys_recorder.go: a stream shows what the filter of all its events would.
use accelerboat.Base.{
  ◌≡◌, refl, sym, ap, ◌∙◌, true, ◌&&◌, Option, none, some, List, [], ◌∷◌, ◌++◌, arith, Bool-cases,
  inl, inr,
}
use accelerboat.Base.Int.{ℤ}
use accelerboat.Base.Text.{Text, text_eq, text_eq→eq, trim_space}
use accelerboat.Recorder.{Event}
use accelerboat.Api.{
  event_matches_filter, filter_rounds, filter_recorder_events, follow_rounds, recorder_stream,
}

module _ (format_size : ℤ → Text) where
  -- The two copies of the filter agree.
  filter_rounds-eq-follow :
      (es : List Event) (registry query : Text)
      → filter_rounds format_size es registry query ≡ follow_rounds format_size es registry query
  unfolding filter_rounds follow_rounds event_matches_filter
  filter_rounds-eq-follow [] registry query = refl
  filter_rounds-eq-follow (e ∷ es) registry query =
      ground (arith, filter_rounds-eq-follow es registry query)

  follow_all : (es : List Event) → follow_rounds format_size es [] [] ≡ some es
  unfolding follow_rounds event_matches_filter text_eq
  follow_all [] = refl
  follow_all (e ∷ es) = ground (arith, follow_all es)

  abbrev both : Option (List Event) → Option (List Event) → Option (List Event)
  both a b = elim a [ none ↦ none | some xs ↦ elim b [ none ↦ none | some ys ↦ some (xs ++ ys) ] ]

  follow_rounds-append :
      (es fs : List Event) (registry query : Text)
      → follow_rounds format_size (es ++ fs) registry query
        ≡ both
            (follow_rounds format_size es registry query)
            (follow_rounds format_size fs registry query)
  unfolding follow_rounds
  follow_rounds-append [] fs registry query = ground arith
  follow_rounds-append (e ∷ es) fs registry query =
      ground (arith, follow_rounds-append es fs registry query)

  filter-eq-follow :
      (es : List Event) (registry query : Text)
      → filter_recorder_events format_size es registry query
        ≡ follow_rounds format_size es registry query
  unfolding filter_recorder_events
  filter-eq-follow es registry query = elim (Bool-cases (text_eq registry [] && text_eq query [])) [
    | inl open_to_all ↦
        let no_registry = sym (empty registry (ground arith)) in
        let no_query = sym (empty query (ground arith)) in
        rw (open_to_all, filter_recorder_events)
          (sym (follow_all es) ∙ λ i. follow_rounds format_size es (no_registry i) (no_query i))
    | inr some_filter ↦
        rw (some_filter, filter_recorder_events) (filter_rounds-eq-follow es registry query)
  ]
    where
      empty : (t : Text) → text_eq t [] ≡ true → t ≡ []
      empty t h = text_eq→eq t [] h

  -- What a stream shows, of the events that it starts with and of those that come, is what the filter
  -- keeps of all of them together: no event is shown that the list would leave out, none is left out
  -- that it would show, and the order is theirs. Both fail for an event whose details panic.
  pub recorder_stream_lem :
      (events new : List Event) (registry query : Text)
      → recorder_stream format_size events new registry query
        ≡ filter_recorder_events format_size
            (events ++ new)
            (trim_space registry)
            (trim_space query)
  unfolding recorder_stream
  recorder_stream_lem events new registry query =
      ap (λ o. both o (follow_rounds format_size new (trim_space registry) (trim_space query)))
        (filter-eq-follow events (trim_space registry) (trim_space query))
      ∙ sym (follow_rounds-append events new (trim_space registry) (trim_space query))
      ∙ sym (filter-eq-follow (events ++ new) (trim_space registry) (trim_space query))
