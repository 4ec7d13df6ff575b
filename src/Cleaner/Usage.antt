-- ===== src/Cleaner/Usage.antt =====
-- cleaner.go: when a layer file was used last, from the recorded events, and which digest a file and an
-- event stand for.
use Prim.Native.Nat.{ℕ, ◌≤◌, ◌-◌, ◌*◌}
use accelerboat.Base.{
  ◌≡◌, ◌≢◌, refl, sym, ap, ◌∙◌, ◌⊎◌, inl, inr, Bool, true, false, not, ◌&&◌, Option, none, some,
  List, [], ◌∷◌, ◌++◌, arith, ltb, ◌==◌, if◌then◌else◌, Bool-cases, subst, length, length-append,
}
use accelerboat.Base.Sort.{All, In}
use accelerboat.Base.Keys.{mem, lookup, lookup-insert}
use accelerboat.Base.Text.{
  Text, text_eq, text_eq→eq, has_prefix, has_prefix-append, append-drop_prefix, trim_prefix,
  trim_suffix, trim_suffix-append, NoSpace, NoSpace-append, trim_space-id, text_ne, codes,
}
use accelerboat.Base.Int.{ℤ, pos}
use accelerboat.Recorder.{Event}
use accelerboat.Cleaner.{
  sha256, tar_gzip, normalize_digest, digest_from_details, digest_from_layer_file_name, blob_types,
  LastUsed, used_at, note_event, note_events, build_digest_last_used, is_empty, list_events_limit,
}
use accelerboat.Layer.Download.{layer_file_name}

-- The event counts for a digest: it is one of the four kinds, and carries that digest.
abbrev pub counts_for : Text → Event → Bool
counts_for norm e =
    mem e.kind blob_types
    && not (text_eq (digest_from_details e.details) [])
    && text_eq (normalize_digest (digest_from_details e.details)) norm

note_event-used :
    (norm : Text) (out : LastUsed) (e : Event)
    → used_at norm (note_event out e) ≡ (
        if counts_for norm e && ltb (used_at norm out) e.timestamp
        then e.timestamp
        else used_at norm out)
unfolding note_event used_at
note_event-used norm out e =
    let d = normalize_digest (digest_from_details e.details) in
    elim (Bool-cases (text_eq d norm)) [
      | inl same ↦ ground (
        arith,
        same,
        lookup-insert d norm e.timestamp out,
        ap (λ k. lookup k out) (text_eq→eq d norm same),
      )
      | inr differ ↦ ground (arith, differ, lookup-insert d norm e.timestamp out)
    ]

-- The time of a digest after the events: no event that counts for it is later, and it is the time of
-- such an event, or the time that the digest had before.
abbrev pub IsLatest : Text → List Event → ℕ → ℕ → Type 0
IsLatest norm es before t =
    All (λ e. counts_for norm e ≡ true → e.timestamp ≤ t) es
    × (before ≤ t)
    × ((t ≡ before) ⊎ (e : Event) × In e es × (counts_for norm e ≡ true) × (e.timestamp ≡ t))

IsLatest-cons :
    (norm : Text) (e : Event) (es : List Event) (before middle t : ℕ)
    → middle ≡ (if counts_for norm e && ltb before e.timestamp then e.timestamp else before)
    → IsLatest norm es middle t
    → IsLatest norm (e ∷ es) before t
IsLatest-cons norm e es before middle t h (all, le, from) =
    elim (Bool-cases (counts_for norm e && ltb before e.timestamp)) [
      | inl newer ↦
          let here : middle ≡ e.timestamp = h ∙ ap (λ b. if b then e.timestamp else before) newer in
          (
            (λ c. omega arith, all),
            ground (arith, newer, here),
            elim from [
              | inl same ↦ inr (e, inl refl, ground (arith, newer), sym here ∙ sym same)
              | inr (f, i, c, at) ↦ inr (f, inr i, c, at)
            ],
          )
      | inr older' ↦
          let here : middle ≡ before = h ∙ ap (λ b. if b then e.timestamp else before) older' in
          (
            (λ c. ground (arith, older', here, c), all),
            omega arith,
            elim from [ inl same ↦ inl (same ∙ here) | inr (f, i, c, at) ↦ inr (f, inr i, c, at) ],
          )
    ]

note_events-IsLatest :
    (norm : Text) (es : List Event) (out : LastUsed)
    → IsLatest norm es (used_at norm out) (used_at norm (note_events out es))
unfolding note_events
note_events-IsLatest norm [] out = (tt, omega arith, inl refl)
note_events-IsLatest norm (e ∷ es) out =
    IsLatest-cons norm e es (used_at norm out) (used_at norm (note_event out e)) _
      (note_event-used norm out e) (note_events-IsLatest norm es (note_event out e))

no_use : (norm : Text) → used_at norm [] ≡ 0
unfolding used_at lookup
no_use norm = refl

-- The time from which on events are asked for.
abbrev pub start_time : ℕ → ℕ → Option ℕ
start_time now retain_days = if retain_days == 0 then none else some (now - retain_days * 86400)

-- With an event file, a digest's time of last use is the latest time of all listed events of the four
-- kinds that carry the digest, and the zero time if there is none. Digests count as the same with and
-- without their prefix.
pub build_digest_last_used-IsLatest :
    (list : ℤ → List Text → Option ℕ → List Event) (now : ℕ) (event_file : Text) (retain_days : ℕ)
    (norm : Text)
    → is_empty event_file ≡ false
    → IsLatest norm
        (list (pos list_events_limit) blob_types (start_time now retain_days))
        0
        (used_at norm (build_digest_last_used list now event_file retain_days))
unfolding build_digest_last_used
build_digest_last_used-IsLatest list now event_file retain_days norm e =
    let events = list (pos list_events_limit) blob_types (start_time now retain_days) in
    rw e (
      subst (λ b. IsLatest norm events b (used_at norm (note_events [] events))) (no_use norm)
        (note_events-IsLatest norm events []))

normalize_digest-eq :
    (d : Text) → NoSpace d → normalize_digest d ≡ (if has_prefix d sha256 then d else sha256 ++ d)
unfolding normalize_digest
normalize_digest-eq d h =
    ap (λ t. if has_prefix t sha256 then t else sha256 ++ t) (trim_space-id d h)

NoSpace-drop : (s t : Text) → NoSpace (s ++ t) → NoSpace t
NoSpace-drop [] t h = h
NoSpace-drop (c ∷ s) t (hc, h) = NoSpace-drop s t h

append-ne : (s : Text) (c : ℕ) (t : Text) → s ≢ s ++ (c ∷ t)
append-ne s c t e = absurd (omega (arith, ap length e, length-append s (c ∷ t)))

-- What both sides come to.
short : Text → Text
short digest = trim_prefix digest sha256

short-cases :
    (digest : Text)
    → (has_prefix digest sha256 ≡ true) × (digest ≡ sha256 ++ short digest)
      ⊎ (has_prefix digest sha256 ≡ false) × (short digest ≡ digest)
unfolding trim_prefix short
short-cases digest = elim (Bool-cases (has_prefix digest sha256)) [
  | inl e ↦ inl (e, rw e (sym (append-drop_prefix digest sha256 e)))
  | inr e ↦ inr (e, rw e refl)
]

NoSpace-short : (digest : Text) → NoSpace digest → NoSpace (short digest)
NoSpace-short digest h = elim (short-cases digest) [
  | inl (e, parts) ↦ NoSpace-drop sha256 (short digest) (subst NoSpace parts h)
  | inr (e, same) ↦ subst NoSpace (sym same) h
]

digest_from_file :
    (digest : Text) (is_oci : Bool)
    → has_prefix (short digest) sha256 ≡ false
    → digest_from_layer_file_name (layer_file_name digest) is_oci ≡ sha256 ++ short digest
unfolding digest_from_layer_file_name layer_file_name trim_prefix short
digest_from_file digest is_oci once =
    let t = trim_prefix digest sha256 in
    let cut : trim_suffix (t ++ tar_gzip) tar_gzip ≡ t = trim_suffix-append t tar_gzip in
    rw (cut, text_ne t (t ++ tar_gzip) (append-ne t b'.' (codes "tar.gzip")), once) refl

-- The file that a layer is stored in stands for the layer's digest: the cleaner reads from the file's
-- name the digest that it gives an event with this digest. The digest has no space, and no second
-- prefix.
pub digest_from_layer_file_name-layer_file_name :
    (digest : Text) (is_oci : Bool)
    → NoSpace digest
    → has_prefix (trim_prefix digest sha256) sha256 ≡ false
    → normalize_digest (digest_from_layer_file_name (layer_file_name digest) is_oci)
      ≡ normalize_digest digest
unfolding short
digest_from_layer_file_name-layer_file_name digest is_oci clean once =
    ap normalize_digest (digest_from_file digest is_oci once)
    ∙ normalize_digest-eq (sha256 ++ short digest)
        (NoSpace-append sha256 (short digest) prefix_clean (NoSpace-short digest clean))
    ∙ ap (λ b. if b then sha256 ++ short digest else sha256 ++ (sha256 ++ short digest))
        (has_prefix-append sha256 (short digest))
    ∙ elim (short-cases digest) [
      | inl (e, parts) ↦ sym (
          normalize_digest-eq digest clean
          ∙ ap (λ b. if b then digest else sha256 ++ digest) e
          ∙ parts)
      | inr (e, same) ↦ sym (
          normalize_digest-eq digest clean
          ∙ ap (λ b. if b then digest else sha256 ++ digest) e
          ∙ ap (λ t. sha256 ++ t) (sym same))
    ]
  where
    prefix_clean : NoSpace sha256
    prefix_clean = (refl, (refl, (refl, (refl, (refl, (refl, (refl, tt)))))))
