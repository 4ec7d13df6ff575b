-- ===== src/Registry/Uri/Print.antt =====
-- registry.go: the paths that clients ask for are read back.
use accelerboat.Base.{
  ◌≡◌, refl, ap, ◌∙◌, true, false, ◌&&◌, Option, none, some, [], ◌∷◌, ◌++◌, arith, ◌==◌,
  if◌then◌else◌, length, append-nil,
}
use accelerboat.Base.Text.{
  Text, codes, has_prefix, drop_prefix, has_prefix-append, drop_prefix-append, Lacks,
}
use accelerboat.Registry.Uri.{split_last, after_version, match_manifest, all_alnum, is_blob_get}

-- A separator that begins with '/' has no place where there is no '/'.
split_last-Lacks : (sep s : Text) → Lacks b'/' s → split_last (b'/' ∷ sep) s ≡ none
unfolding split_last has_prefix
split_last-Lacks sep [] h = refl
split_last-Lacks sep (c ∷ s) (h, hs) =
    rw (split_last-Lacks sep s hs, split_last) (ground (arith, h))

-- The same where the first part has no '/' and the rest has no place.
split_last-skip :
    (sep p s : Text)
    → Lacks b'/' p
    → split_last (b'/' ∷ sep) s ≡ none
    → split_last (b'/' ∷ sep) (p ++ s) ≡ none
unfolding split_last has_prefix
split_last-skip sep [] s h e = e
split_last-skip sep (c ∷ p) s (h, hs) e =
    rw (split_last-skip sep p s hs e, split_last) (ground (arith, h))

split_last-append :
    (sep a s : Text) (x y : Text)
    → split_last sep s ≡ some (x, y)
    → split_last sep (a ++ s) ≡ some (a ++ x, y)
unfolding split_last
split_last-append sep [] s x y h = h
split_last-append sep (c ∷ a) s x y h = rw (split_last-append sep a s x y h, split_last) refl

-- A text without '/' does not begin with one that has it.
has_prefix-slash : (s p q : Text) → Lacks b'/' s → has_prefix s (p ++ (b'/' ∷ q)) ≡ false
unfolding has_prefix
has_prefix-slash [] [] q h = refl
has_prefix-slash [] (d ∷ p) q h = refl
has_prefix-slash (c ∷ s) [] q (h, hs) = ground (arith, h)
has_prefix-slash (c ∷ s) (d ∷ p) q (h, hs) = ground (arith, has_prefix-slash s p q hs)

split_last-here :
    (sep s : Text)
    → split_last (b'/' ∷ sep) (sep ++ s) ≡ none
    → split_last (b'/' ∷ sep) (b'/' ∷ (sep ++ s)) ≡ some ([], s)
unfolding split_last
split_last-here sep s e =
    rw (e, has_prefix-append (b'/' ∷ sep) s, split_last)
      (ap (λ r. some ([], r)) (drop_prefix-append (b'/' ∷ sep) s))

split_last-miss :
    (sep s : Text)
    → split_last (b'/' ∷ sep) s ≡ none
    → has_prefix (b'/' ∷ s) (b'/' ∷ sep) ≡ false
    → split_last (b'/' ∷ sep) (b'/' ∷ s) ≡ none
unfolding split_last
split_last-miss sep s e h = rw (e, h, split_last)

manifests_last :
    (tag : Text)
    → Lacks b'/' tag
    → split_last (codes "/manifests/") (codes "/manifests/" ++ tag) ≡ some ([], tag)
unfolding has_prefix
manifests_last tag h = split_last-here (codes "manifests/") tag (
    split_last-skip (codes "manifests/") (codes "manifests") (b'/' ∷ tag) (omega arith) (
      split_last-miss (codes "manifests/") tag (split_last-Lacks (codes "manifests/") tag h)
        (has_prefix-slash tag (codes "manifests") [] h)))

blobs_last :
    (hex : Text)
    → Lacks b'/' hex
    → split_last (codes "/blobs/sha256:") (codes "/blobs/sha256:" ++ hex) ≡ some ([], hex)
unfolding has_prefix
blobs_last hex h = split_last-here (codes "blobs/sha256:") hex (
    split_last-skip (codes "blobs/sha256:") (codes "blobs") (codes "/sha256:" ++ hex) (omega arith)
      (split_last-miss (codes "blobs/sha256:") (codes "sha256:" ++ hex)
        (split_last-skip (codes "blobs/sha256:") (codes "sha256:") hex (omega arith)
          (split_last-Lacks (codes "blobs/sha256:") hex h))
        refl))

pub all_alnum-Lacks : (s : Text) → all_alnum s ≡ true → Lacks b'/' s
all_alnum-Lacks [] h = tt
all_alnum-Lacks (c ∷ s) h = (λ e. absurd (ground arith), all_alnum-Lacks s (ground arith))

-- The path of a blob.
abbrev pub blob_path : Text → Text → Text
blob_path repo hex = codes "/v2/" ++ (repo ++ (codes "/blobs/sha256:" ++ hex))

abbrev pub manifest_path : Text → Text → Text
manifest_path repo tag = codes "/v2/" ++ (repo ++ (codes "/manifests/" ++ tag))

-- The path of a manifest is read back, whatever the repository holds, for a tag or digest without '/'.
pub match_manifest-path :
    (repo tag : Text) → Lacks b'/' tag → match_manifest (manifest_path repo tag) ≡ some (repo, tag)
unfolding match_manifest after_version has_prefix drop_prefix
match_manifest-path repo tag h =
    split_last-append (codes "/manifests/") repo (codes "/manifests/" ++ tag) [] tag
      (manifests_last tag h)
    ∙ ap (λ r. some (r, tag)) (append-nil repo)

-- The path of a blob is read back, whatever the repository holds, exactly for 64 letters and digits
-- behind the colon; another text without '/' there is no blob.
pub is_blob_get-path :
    (repo hex : Text)
    → Lacks b'/' hex
    → is_blob_get (blob_path repo hex)
      ≡ (if length hex == 64 && all_alnum hex then some (repo, hex) else none)
unfolding is_blob_get after_version has_prefix drop_prefix
is_blob_get-path repo hex h =
    let found =
      split_last-append (codes "/blobs/sha256:") repo (codes "/blobs/sha256:" ++ hex) [] hex
        (blobs_last hex h)
      ∙ ap (λ r. some (r, hex)) (append-nil repo) in
    ap
      (λ (o : Option (Text × Text)). elim o as (λ q. Option (Text × Text)) [
        | none ↦ none
        | some (r, x) ↦ if length x == 64 && all_alnum x then some (r, x) else none
      ])
      found
