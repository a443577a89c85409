-- ===== src/Update/Assets.antt =====
-- What the searches among the assets of a release and the lines of its checksums find.
use mathlib.Core.Path.{subst}
use local_dictation.Prelude.{
  Bool, true, false, not, ◌&&◌, List, [], ◌∷◌, ◌++◌, Option, none, some, if◌then◌else◌, ◌≡◌, ◌≢◌,
  refl, ap, arith,
}
use local_dictation.Text.{Text, codes, is_empty, beq, trim_prefix, to_lower}
use local_dictation.Text.Laws.{beq_iff}
use local_dictation.Update.Manifest.{Bytes}
use local_dictation.Update.Sums.{
  fields, sum_of_line, first_given, sum_among, scan_lines, expected_hash,
}
use local_dictation.Update.Github.{
  Asset, has_suffix, suffix_of, asset_named, asset_ending, installer_for,
}

-- An entry of a list, by what is around it.
abbrev pub Among : {A : Type 0} → A → List A → Type 0
Among {A} x xs = (before : List A) × (after : List A) × (xs ≡ before ++ x ∷ after)

Among-later : {A : Type 0} (y x : A) (xs : List A) → Among x xs → Among x (y ∷ xs)
Among-later y x xs (before, after, e) = (y ∷ before, after, ap (◌∷◌ y) e)

-- A line of a checksum file that gives the digest of a file, with or without the mark of binary mode.
pub record Listed (text : Bytes → Text) (sums : Bytes) (name digest : Text) : Type 0 where
  pub line : Bytes
  pub among : Among line (scan_lines sums)
  pub file : Text
  pub reads : fields (text line) ≡ digest ∷ file ∷ []
  pub same_name : trim_prefix file (codes "*") ≡ name

-- The asset is the release's, is named for the platform's installer and has an address.
pub record Installs (platform : Text) (assets : List Asset) (a : Asset) : Type 0 where
  pub among : Among a assets
  pub suffix : Text
  pub right_suffix : suffix_of platform ≡ some suffix
  pub ends : has_suffix (to_lower a.name) suffix ≡ true
  pub addressed : a.url ≢ []

sum_of_line_lem :
    (name digest : Text) (fs : List Text)
    → sum_of_line name fs ≡ some digest
    → (file : Text) × (fs ≡ digest ∷ file ∷ []) × (trim_prefix file (codes "*") ≡ name)
sum_of_line_lem name digest [] h = absurd (ground (arith, h))
sum_of_line_lem name digest (a ∷ []) h = absurd (ground (arith, h))
sum_of_line_lem name digest (a ∷ b ∷ c ∷ fs) h = absurd (ground (arith, h))
sum_of_line_lem name digest (a ∷ b ∷ []) h = chosen (beq (trim_prefix b (codes "*")) name) refl h
  where
    chosen :
        (t : Bool)
        → beq (trim_prefix b (codes "*")) name ≡ t
        → (if t then some a else none) ≡ some digest
        → (file : Text) × (a ∷ b ∷ [] ≡ digest ∷ file ∷ []) × (trim_prefix file (codes "*") ≡ name)
    chosen true e k = (
      b,
      ap (λ x. x ∷ b ∷ []) (ap (λ (x : Option Text). elim x [ some y ↦ y | none ↦ a ]) k),
      (beq_iff _ _).0 e,
    )
    chosen false e k = absurd (ground (arith, k))

sum_among-Listed :
    (text : Bytes → Text) (name : Text) (lines : List Bytes)
    → is_empty (sum_among text name lines) ≡ false
    → (line : Bytes) × Among line lines
      × (sum_of_line name (fields (text line)) ≡ some (sum_among text name lines))
unfolding is_empty
sum_among-Listed text name [] h = absurd (ground (arith, h))
sum_among-Listed text name (l ∷ lines) h =
    found (sum_among-Listed text name lines) (sum_of_line name (fields (text l))) refl h
  where
    found :
        (later : is_empty (sum_among text name lines) ≡ false
          → (line : Bytes) × Among line lines
            × (sum_of_line name (fields (text line)) ≡ some (sum_among text name lines)))
        (s : Option Text)
        → sum_of_line name (fields (text l)) ≡ s
        → is_empty (first_given (sum_among text name lines) s) ≡ false
        → (line : Bytes) × Among line (l ∷ lines)
          × (sum_of_line name (fields (text line))
              ≡ some (first_given (sum_among text name lines) s))
    found later none e k =
        let (line, among, read) = later k in (line, Among-later l line lines among, read)
    found later (some digest) e k = (l, ([], lines, refl), e)

pub expected_hash-Listed :
    (text : Bytes → Text) (sums : Bytes) (name : Text)
    → is_empty (expected_hash text sums name) ≡ false
    → Listed text sums name (expected_hash text sums name)
unfolding expected_hash
expected_hash-Listed text sums name h =
    let (line, among, read) = sum_among-Listed text name (scan_lines sums) h in
    let (file, reads, same) = sum_of_line_lem name _ (fields (text line)) read in
    record { line = line; among = among; file = file; reads = reads; same_name = same }

find_asset :
    (P : Asset → Type 0) (test : Bool) (a : Asset) (rest : List Asset) (found : Option Asset)
    (x : Asset)
    → (test ≡ true → P a)
    → (found ≡ some x → Among x rest × P x)
    → (if test then some a else found) ≡ some x
    → Among x (a ∷ rest) × P x
find_asset P true a rest found x here later h =
    let same : a ≡ x = ap (λ (o : Option Asset). elim o [ some y ↦ y | none ↦ a ]) h in
    subst (λ y. Among y (a ∷ rest) × P y) same (([], rest, refl), here refl)
find_asset P false a rest found x here later h =
    let (among, px) = later h in (Among-later a x rest among, px)

addressed : (t : Text) (b : Bool) → (b && not (is_empty t)) ≡ true → (b ≡ true) × (t ≢ [])
unfolding is_empty
addressed [] b h = absurd (ground (arith, h))
addressed (c ∷ t) b h = (ground (arith, h), λ e. ground (arith, e))

pub asset_named-Among :
    (name : Text) (assets : List Asset) (x : Asset)
    → asset_named name assets ≡ some x
    → Among x assets × (x.name ≡ name)
unfolding asset_named
asset_named-Among name [] x h = absurd (ground (arith, h))
asset_named-Among name (a ∷ rest) x h =
    find_asset (λ y. y.name ≡ name) _ a rest (asset_named name rest) x
      (λ e. (beq_iff _ _).0 (addressed a.url _ e).0) (asset_named-Among name rest x) h

asset_ending-Among :
    (suffix : Text) (assets : List Asset) (x : Asset)
    → asset_ending suffix assets ≡ some x
    → Among x assets × ((has_suffix (to_lower x.name) suffix ≡ true) × (x.url ≢ []))
unfolding asset_ending
asset_ending-Among suffix [] x h = absurd (ground (arith, h))
asset_ending-Among suffix (a ∷ rest) x h =
    find_asset (λ y. (has_suffix (to_lower y.name) suffix ≡ true) × (y.url ≢ [])) _ a rest
      (asset_ending suffix rest) x (λ e. addressed a.url _ e) (asset_ending-Among suffix rest x) h

pub installer_for-Installs :
    (platform : Text) (assets : List Asset) (x : Asset)
    → installer_for platform assets ≡ some x
    → Installs platform assets x
unfolding installer_for
installer_for-Installs platform assets x h = chosen (suffix_of platform) refl h
  where
    chosen :
        (s : Option Text)
        → suffix_of platform ≡ s
        → elim s [ none ↦ none | some suffix ↦ asset_ending suffix assets ] ≡ some x
        → Installs platform assets x
    chosen none e k = absurd (ground (arith, k))
    chosen (some suffix) e k =
        let (among, (ends, filled)) = asset_ending-Among suffix assets x k in
        record { among = among; suffix = suffix; right_suffix = e; ends = ends; addressed = filled }
