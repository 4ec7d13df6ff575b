-- ===== src/Cleaner/Removal.antt =====
-- cleaner.go: the removal stops as soon as the disk is below the threshold, and takes the files that
-- were not used for the longest time.
use Prim.Native.Nat.{ℕ, ◌+◌, ◌*◌, ◌≤◌, ◌<◌}
use accelerboat.Base.{
  ◌≡◌, refl, sym, ap, ◌∙◌, ◌⊎◌, inl, inr, Bool, true, false, not, ◌&&◌, Option, none, some, List,
  [], ◌∷◌, ◌++◌, arith, ltb, leb, ◌==◌, if◌then◌else◌, if_ind, subst, some_inj,
}
use accelerboat.Base.Sort.{Sorted, sort_by, sort_by-Sorted}
use accelerboat.Base.Text.{Text}
use accelerboat.Cleaner.{
  LayerFile, LastUsed, Entry, older, remove_until, total_disk_used, collect_layer_files, run_clean,
  bytes_per_gb,
}

abbrev pub total_size : List LayerFile → ℕ
total_size [] = 0
total_size (f ∷ fs) = f.size + total_size fs

-- The files of a list that os.Remove removes.
abbrev pub removable : (Text → Bool) → List LayerFile → List LayerFile
removable remove [] = []
removable remove (f ∷ fs) = if remove f.path then f ∷ removable remove fs else removable remove fs

-- Before each of the files the disk is still above the threshold.
abbrev pub AllNeeded : (Text → Bool) → ℕ → ℕ → List LayerFile → ℕ → Type 0
AllNeeded remove total target [] freed = Unit {0}
AllNeeded remove total target (f ∷ fs) freed =
    (freed + target < total)
    × AllNeeded remove total target fs (if remove f.path then freed + f.size else freed)

-- The candidates are cut in two: of the first part all that can be removed are removed, and each was
-- needed; the second part is left alone, and is not empty only if enough was freed.
pub record IsCut (remove : Text → Bool) (total target freed : ℕ) (cs : List LayerFile)
    (p : ℕ × List LayerFile) : Type 0 where
  pub before : List LayerFile
  pub after : List LayerFile
  pub parts : cs ≡ before ++ after
  pub removed : p.1 ≡ removable remove before
  pub freed_eq : p.0 ≡ freed + total_size p.1
  pub needed : AllNeeded remove total target before freed
  pub enough : (after ≡ []) ⊎ (total ≤ p.0 + target)

module _ (remove : Text → Bool) (total target : ℕ) where
  IsCut-nil :
      (freed : ℕ) → IsCut remove total target freed [] (remove_until remove total target [] freed)
  unfolding remove_until
  IsCut-nil freed = record {
    before = [];
    after = [];
    parts = refl;
    removed = refl;
    freed_eq = omega arith;
    needed = tt;
    enough = inl refl;
  }

  IsCut-stop :
      (freed : ℕ) (cs : List LayerFile)
      → total ≤ freed + target
      → IsCut remove total target freed cs (freed, [])
  IsCut-stop freed cs h = record {
    before = [];
    after = cs;
    parts = refl;
    removed = refl;
    freed_eq = omega arith;
    needed = tt;
    enough = inr h;
  }

  IsCut-kept :
      (freed : ℕ) (c : LayerFile) (cs : List LayerFile) (p : ℕ × List LayerFile)
      → freed + target < total
      → remove c.path ≡ false
      → IsCut remove total target freed cs p
      → IsCut remove total target freed (c ∷ cs) p
  IsCut-kept freed c cs p more stays h = record {
    before = c ∷ h.before;
    after = h.after;
    parts = ap (λ xs. c ∷ xs) h.parts;
    removed = rw stays h.removed;
    freed_eq = h.freed_eq;
    needed = (more, rw stays h.needed);
    enough = h.enough;
  }

  IsCut-removed :
      (freed : ℕ) (c : LayerFile) (cs : List LayerFile) (p : ℕ × List LayerFile)
      → freed + target < total
      → remove c.path ≡ true
      → IsCut remove total target (freed + c.size) cs p
      → IsCut remove total target freed (c ∷ cs) (p.0, c ∷ p.1)
  IsCut-removed freed c cs p more goes h = record {
    before = c ∷ h.before;
    after = h.after;
    parts = ap (λ xs. c ∷ xs) h.parts;
    removed = rw goes (ap (λ xs. c ∷ xs) h.removed);
    freed_eq = omega (arith, h.freed_eq);
    needed = (more, rw goes h.needed);
    enough = h.enough;
  }

  remove_until-IsCut :
      (cs : List LayerFile) (freed : ℕ)
      → IsCut remove total target freed cs (remove_until remove total target cs freed)
  unfolding remove_until
  remove_until-IsCut [] freed = IsCut-nil freed
  remove_until-IsCut (c ∷ cs) freed =
      if_ind (IsCut remove total target freed (c ∷ cs)) (leb total (freed + target)) _ _
        (λ e. IsCut-stop freed (c ∷ cs) (ground (arith, e)))
        (λ e.
          if_ind (IsCut remove total target freed (c ∷ cs)) (not (remove c.path)) _ _
            (λ k.
              IsCut-kept freed c cs _ (ground (arith, e)) (ground (arith, k))
                (remove_until-IsCut cs freed))
            (λ k.
              IsCut-removed freed c cs _ (ground (arith, e)) (ground (arith, k))
                (remove_until-IsCut cs (freed + c.size))))

older_asym : (a b : LayerFile) → older a b ≡ true → older b a ≡ false
older_asym a b h = ground arith

older_trans : (a b c : LayerFile) → older b a ≡ false → older c b ≡ false → older c a ≡ false
older_trans a b c h k = ground arith

removable_nil : (remove : Text → Bool) (fs : List LayerFile) → fs ≡ [] → removable remove fs ≡ []
removable_nil remove [] e = refl
removable_nil remove (f ∷ fs) e = absurd cc

IsCut-enough :
    (remove : Text → Bool) (total target : ℕ) (cs : List LayerFile) (p : ℕ × List LayerFile)
    → total ≤ target
    → IsCut remove total target 0 cs p
    → p.1 ≡ []
IsCut-enough remove total target cs p le h =
    h.removed ∙ removable_nil remove h.before (none_needed h.before h.needed)
  where
    none_needed : (fs : List LayerFile) → AllNeeded remove total target fs 0 → fs ≡ []
    none_needed [] n = refl
    none_needed (f ∷ fs) (lt, n) = absurd (omega arith)

run_clean-cases :
    (remove : Text → Bool) (used : LastUsed) (sizes : List (Option ℕ))
    (dirs : List (Bool × List Entry)) (threshold retain_days : ℕ) (removed : List LayerFile)
    → run_clean remove used sizes dirs threshold retain_days ≡ some removed
    → (removed ≡ []) × (total_disk_used sizes ≤ threshold * bytes_per_gb)
      ⊎ (files : List LayerFile) × (collect_layer_files used dirs ≡ some files)
        × (removed
            ≡ (remove_until remove
                (total_disk_used sizes)
                (threshold * bytes_per_gb)
                (sort_by older files)
                0).1)
unfolding run_clean
run_clean-cases remove used sizes dirs threshold retain_days removed =
    if_ind
      (λ o.
        o ≡ some removed
        → (removed ≡ []) × (total_disk_used sizes ≤ threshold * bytes_per_gb)
          ⊎ (files : List LayerFile) × (collect_layer_files used dirs ≡ some files)
            × (removed
                ≡ (remove_until remove (total_disk_used sizes) (threshold * bytes_per_gb)
                    (sort_by older files) 0).1))
      (retain_days == 0 && not (ltb (threshold * bytes_per_gb) (total_disk_used sizes))) _ _
      (λ b e. inl (sym (some_inj e), ground (arith, b)))
      (λ b e. inr (collected (collect_layer_files used dirs) refl e))
  where
    collected :
        (o : Option (List LayerFile))
        → collect_layer_files used dirs ≡ o
        → elim o [
          | none ↦ none
          | some files ↦
              some
                (remove_until remove
                  (total_disk_used sizes)
                  (threshold * bytes_per_gb)
                  (sort_by older files)
                  0).1
        ]
          ≡ some removed
        → (files : List LayerFile) × (collect_layer_files used dirs ≡ some files)
          × (removed
              ≡ (remove_until remove
                  (total_disk_used sizes)
                  (threshold * bytes_per_gb)
                  (sort_by older files)
                  0).1)
    collected none h e = absurd cc
    collected (some files) h e = (files, h, sym (some_inj e))

-- A run removes nothing while the disk does not exceed the threshold, whatever the days to retain.
pub run_clean-nil :
    (remove : Text → Bool) (used : LastUsed) (sizes : List (Option ℕ))
    (dirs : List (Bool × List Entry)) (threshold retain_days : ℕ) (removed : List LayerFile)
    → run_clean remove used sizes dirs threshold retain_days ≡ some removed
    → total_disk_used sizes ≤ threshold * bytes_per_gb
    → removed ≡ []
run_clean-nil remove used sizes dirs threshold retain_days removed e le =
    elim (run_clean-cases remove used sizes dirs threshold retain_days removed e) [
      | inl (nothing, h) ↦ nothing
      | inr (files, got, it) ↦
          it
          ∙ IsCut-enough remove _ _ (sort_by older files) _ le
              (remove_until-IsCut remove _ _ (sort_by older files) 0)
    ]

-- A run that exceeds the threshold goes through the layer files, those first that were not used for
-- the longest time. It removes every file of a first part of them that can be removed, and each of
-- these files was met while the disk still exceeded the threshold. It leaves the rest alone, and there
-- is a rest only if the sizes of the removed files bring the disk down to the threshold.
pub run_clean-IsCut :
    (remove : Text → Bool) (used : LastUsed) (sizes : List (Option ℕ))
    (dirs : List (Bool × List Entry)) (threshold retain_days : ℕ) (removed : List LayerFile)
    → run_clean remove used sizes dirs threshold retain_days ≡ some removed
    → threshold * bytes_per_gb < total_disk_used sizes
    → (files : List LayerFile) × (collect_layer_files used dirs ≡ some files)
      × Sorted older (sort_by older files)
      × IsCut remove
          (total_disk_used sizes)
          (threshold * bytes_per_gb)
          0
          (sort_by older files)
          (total_size removed, removed)
run_clean-IsCut remove used sizes dirs threshold retain_days removed e more =
    elim (run_clean-cases remove used sizes dirs threshold retain_days removed e) [
      | inl (nothing, h) ↦ absurd (omega arith)
      | inr (files, got, it) ↦
          let cut =
            remove_until-IsCut remove (total_disk_used sizes) (threshold * bytes_per_gb)
              (sort_by older files) 0 in
          (
            files,
            got,
            sort_by-Sorted older older_asym older_trans files,
            subst (IsCut remove _ _ 0 (sort_by older files))
                (λ i. (sizes_eq files it cut.freed_eq i, sym it i)) cut,
          )
    ]
  where
    sizes_eq :
        (files : List LayerFile)
        → removed
          ≡ (remove_until remove
              (total_disk_used sizes)
              (threshold * bytes_per_gb)
              (sort_by older files)
              0).1
        → let p =
            remove_until remove
              (total_disk_used sizes)
              (threshold * bytes_per_gb)
              (sort_by older files)
              0 in
          p.0 ≡ 0 + total_size p.1
          → (remove_until remove
              (total_disk_used sizes)
              (threshold * bytes_per_gb)
              (sort_by older files)
              0).0
            ≡ total_size removed
    sizes_eq files it h = omega (arith, h, ap total_size it)
