-- ===== src/Update/Version.antt =====
-- `IsNewer`, `compareVersions` and `versionParts` of client/internal/update/update.go.
use local_dictation.Prelude.{Bool, ◌||◌, List, [], ◌∷◌, Option, none, some, ◌==◌, if◌then◌else◌}
use local_dictation.Prelude.Int.{ℤ, pos, negsuc, ltb_ℤ}
use local_dictation.Text.Decimal.{atoi}
use local_dictation.Text.{Text, trim_space, trim_prefix, split}

-- The part before the first `-` or `+`, or all of it.
unfoldable pub before_suffix : Text → Text
before_suffix [] = []
before_suffix (c ∷ s) =
    let rest = before_suffix s in if c == b'-' || c == b'+' then [] else c ∷ rest

abbrev pub put : Option ℤ → List ℤ → List ℤ
put none vs = []
put (some v) vs = v ∷ vs

-- The loop of `versionParts`, up to the first field that is no number.
unfoldable pub numbers : List Text → List ℤ
numbers [] = []
numbers (field ∷ fields) = put (atoi field) (numbers fields)

-- `versionParts`
unfoldable pub version_parts : Text → List ℤ
version_parts v = numbers (split (before_suffix (trim_prefix (trim_space v) (b'v' ∷ []))) b'.')

-- The test in the loop of `compareVersions`, before what the loop goes on to.
abbrev pub compare_values : ℤ → ℤ → ℤ → ℤ
compare_values a b rest = if ltb_ℤ b a then pos 1 else if ltb_ℤ a b then negsuc 0 else rest

-- The loop of `compareVersions`; a list that has ended counts as zero.
unfoldable pub compare_parts : List ℤ → List ℤ → ℤ
compare_parts [] [] = pos 0
compare_parts (a ∷ more) [] = compare_values a (pos 0) (compare_parts more [])
compare_parts [] (b ∷ bs) = compare_values (pos 0) b (compare_parts [] bs)
compare_parts (a ∷ more) (b ∷ bs) = compare_values a b (compare_parts more bs)

-- `compareVersions`
unfoldable pub compare_versions : Text → Text → ℤ
compare_versions a b = compare_parts (version_parts a) (version_parts b)

-- `IsNewer`
unfoldable pub is_newer : Text → Text → Bool
is_newer candidate current = ltb_ℤ (pos 0) (compare_versions candidate current)
