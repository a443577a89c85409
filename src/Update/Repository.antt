-- ===== src/Update/Repository.antt =====
-- The repositories that `CheckRepo` accepts.
use local_dictation.Prelude.{
  ℕ, Bool, true, false, [], ◌∷◌, ◌++◌, Option, none, some, ◌==◌, if◌then◌else◌, ◌≡◌, ◌≢◌, ◌↔◌, ◌⊎◌,
  ◌≤◌, refl, sym, ap, ◌∙◌, arith, All, ==_iff,
}
use local_dictation.Text.{Text, is_empty, contains, cut}
use local_dictation.Update.Github.{is_repo_letter, are_repo_letters, segments_right, check_repo}

-- A letter of ASCII, a digit, `-`, `_` or `.`, by its code point.
abbrev pub IsRepoLetter : ℕ → Type 0
IsRepoLetter c =
    ((97 ≤ c) × (c ≤ 122))
    ⊎ ((65 ≤ c) × (c ≤ 90))
    ⊎ ((48 ≤ c) × (c ≤ 57))
    ⊎ (c ≡ 45)
    ⊎ (c ≡ 95)
    ⊎ (c ≡ 46)

is_repo_letter_iff : (c : ℕ) → (is_repo_letter c ≡ true) ↔ IsRepoLetter c
is_repo_letter_iff c = (λ h. ground (arith, h), λ h. ground (arith, h))

-- owner/name, both not empty and of letters that a repository may have.
pub record OwnerAndName (repo : Text) : Type 0 where
  pub owner : Text
  pub name : Text
  pub reads : repo ≡ owner ++ b'/' ∷ name
  pub owner_filled : owner ≢ []
  pub name_filled : name ≢ []
  pub owner_letters : All IsRepoLetter owner
  pub name_letters : All IsRepoLetter name

are_repo_letters_iff : (s : Text) → (are_repo_letters s ≡ true) ↔ All IsRepoLetter s
unfolding are_repo_letters
are_repo_letters_iff [] = ground arith
are_repo_letters_iff (c ∷ s) = (
  λ h. (
    (is_repo_letter_iff c).0 (ground (arith, h)),
    (are_repo_letters_iff s).0 (ground (arith, h)),
  ),
  λ (x, y). ground (arith, (is_repo_letter_iff c).1 x, (are_repo_letters_iff s).1 y),
)

no_slash : (s : Text) → All IsRepoLetter s → contains s b'/' ≡ false
unfolding contains
no_slash [] h = refl
no_slash (c ∷ s) (x, y) = ground (arith, x, no_slash s y)

filled : (s : Text) → is_empty s ≡ false → s ≢ []
unfolding is_empty
filled s h e = ground (arith, sym h ∙ ap is_empty e)

not_empty : (s : Text) → s ≢ [] → is_empty s ≡ false
unfolding is_empty
not_empty [] h = absurd (h refl)
not_empty (c ∷ s) h = refl

cut_reads : (s : Text) (c : ℕ) (a b : Text) → cut s c ≡ some (a, b) → s ≡ a ++ c ∷ b
unfolding cut
cut_reads [] c a b h = absurd (ground (arith, h))
cut_reads (d ∷ s) c a b h = step (cut s c) (d == c) refl (λ x y e. cut_reads s c x y e) h
  where
    same :
        (x y u v : Text)
        → ◌≡◌ {A = Option (Text × Text)} (some (x, y)) (some (u, v))
        → x ++ c ∷ y ≡ u ++ c ∷ v
    same x y u v e =
        ap (λ (o : Option (Text × Text)). elim o [ none ↦ x ++ c ∷ y | some (p, q) ↦ p ++ c ∷ q ]) e

    step :
        (o : Option (Text × Text)) (t : Bool)
        → (d == c) ≡ t
        → ((x y : Text) → o ≡ some (x, y) → s ≡ x ++ c ∷ y)
        → ◌≡◌ {A = Option (Text × Text)}
            (if◌then◌else◌ {A = Option (Text × Text)} t
              (some ([], s))
              (elim o [ none ↦ none | some (before, after) ↦ some (d ∷ before, after) ]))
            (some (a, b))
        → d ∷ s ≡ a ++ c ∷ b
    step o true e f k = ap (λ x. x ∷ s) ((==_iff d c).0 e) ∙ same [] s a b k
    step none false e f k = absurd (ground (arith, k))
    step (some (x, y)) false e f k = ap (◌∷◌ d) (f x y refl) ∙ same (d ∷ x) y a b k

cut_joined : (c : ℕ) (a b : Text) → contains a c ≡ false → cut (a ++ c ∷ b) c ≡ some (a, b)
unfolding cut contains
cut_joined c [] b h = ground arith
cut_joined c (d ∷ a) b h =
    let later = cut_joined c a b (ground (arith, h)) in ground (arith, h, later)

segments_right-OwnerAndName :
    (repo : Text) (o : Option (Text × Text))
    → cut repo b'/' ≡ o
    → segments_right o ≡ true
    → OwnerAndName repo
segments_right-OwnerAndName repo none e h = absurd (ground (arith, h))
segments_right-OwnerAndName repo (some (owner, name)) e h = record {
  owner = owner;
  name = name;
  reads = cut_reads repo b'/' owner name e;
  owner_filled = filled owner (ground (arith, h));
  name_filled = filled name (ground (arith, h));
  owner_letters = (are_repo_letters_iff owner).0 (ground (arith, h));
  name_letters = (are_repo_letters_iff name).0 (ground (arith, h));
}

-- `CheckRepo` accepts exactly owner/name, where both are not empty and of letters, digits, `-`, `_` and
-- `.` alone.
pub check_repo_iff : (repo : Text) → (check_repo repo ≡ true) ↔ OwnerAndName repo
unfolding check_repo
check_repo_iff repo = (
  segments_right-OwnerAndName repo (cut repo b'/') refl,
  λ r.
      ap segments_right (
        ap (λ s. cut s b'/') r.reads
        ∙ cut_joined b'/' r.owner r.name (no_slash r.owner r.owner_letters))
      ∙ ground (
        arith,
        not_empty r.owner r.owner_filled,
        not_empty r.name r.name_filled,
        no_slash r.name r.name_letters,
        (are_repo_letters_iff r.owner).1 r.owner_letters,
        (are_repo_letters_iff r.name).1 r.name_letters,
      ),
)
