-- ===== src/Update/Release.antt =====
-- The versions that the release script prints.
use local_dictation.Prelude.{
  ℕ, ◌^◌, ◌<◌, ◌≤◌, false, List, [], ◌∷◌, ◌++◌, ◌≡◌, refl, ap, ◌∙◌, arith, All, All-append,
}
use local_dictation.Prelude.Int.{pos}
use local_dictation.Text.{
  Text, trim_space, trim_left, trim_right, is_space, trim_prefix, has_prefix, split,
}
use local_dictation.Text.Decimal.{decimal, IsDigit, decimal-IsDigit, atoi-decimal}
use local_dictation.Update.Version.{before_suffix, numbers, version_parts, put}

-- A digit or a dot.
abbrev IsPlain : ℕ → Type 0
IsPlain c = (46 ≤ c) × (c ≤ 57)

plain_space : (c : ℕ) → IsPlain c → is_space c ≡ false
unfolding is_space
plain_space c (low, high) = ground (arith, low, high)

trim_left-plain : (s : Text) → All IsPlain s → trim_left is_space s ≡ s
unfolding trim_left
trim_left-plain [] h = refl
trim_left-plain (c ∷ s) (h, hs) = rw (plain_space c h) refl

trim_right-plain : (s : Text) → All IsPlain s → trim_right is_space s ≡ s
unfolding trim_right
trim_right-plain [] h = refl
trim_right-plain (c ∷ []) (h, hs) = rw (plain_space c h) refl
trim_right-plain (c ∷ d ∷ s) (h, hs) = rw (trim_right-plain (d ∷ s) hs) refl

trim_space-plain : (s : Text) → All IsPlain s → trim_space s ≡ s
unfolding trim_space
trim_space-plain s h = ap (trim_right is_space) (trim_left-plain s h) ∙ trim_right-plain s h

trim_prefix-plain : (s : Text) → All IsPlain s → trim_prefix s (b'v' ∷ []) ≡ s
unfolding trim_prefix has_prefix
trim_prefix-plain [] h = refl
trim_prefix-plain (c ∷ s) ((low, high), hs) = ground (arith, low, high)

before_suffix-plain : (s : Text) → All IsPlain s → before_suffix s ≡ s
unfolding before_suffix
before_suffix-plain [] h = refl
before_suffix-plain (c ∷ s) ((low, high), hs) = ground (arith, low, high, before_suffix-plain s hs)

split-digits : (s t : Text) → All IsDigit s → split (s ++ b'.' ∷ t) b'.' ≡ s ∷ split t b'.'
unfolding split
split-digits [] t h = refl
split-digits (c ∷ s) t ((low, high), hs) = ground (arith, low, high, split-digits s t hs)

split-last : (s : Text) → All IsDigit s → split s b'.' ≡ s ∷ []
unfolding split
split-last [] h = refl
split-last (c ∷ s) ((low, high), hs) = ground (arith, low, high, split-last s hs)

digits-IsPlain : (s : Text) → All IsDigit s → All IsPlain s
digits-IsPlain [] h = tt
digits-IsPlain (c ∷ s) ((low, high), hs) = ((omega (arith, low), high), digits-IsPlain s hs)

abbrev pub release : ℕ → ℕ → ℕ → Text
release a b c = decimal (pos a) ++ (b'.' ∷ (decimal (pos b) ++ (b'.' ∷ decimal (pos c))))

release-IsPlain : (a b c : ℕ) → All IsPlain (release a b c)
release-IsPlain a b c =
    let plain = λ (n : ℕ). digits-IsPlain (decimal (pos n)) (decimal-IsDigit n) in
    All-append IsPlain (decimal (pos a)) _ (plain a) (
      (omega arith, omega arith),
      All-append IsPlain (decimal (pos b)) _ (plain b) ((omega arith, omega arith), plain c),
    )

release-fields :
    (a b c : ℕ)
    → split (release a b c) b'.' ≡ decimal (pos a) ∷ decimal (pos b) ∷ decimal (pos c) ∷ []
release-fields a b c =
    split-digits _ _ (decimal-IsDigit a)
    ∙ ap (◌∷◌ (decimal (pos a))) (
        split-digits _ _ (decimal-IsDigit b)
        ∙ ap (◌∷◌ (decimal (pos b))) (split-last _ (decimal-IsDigit c)))

numbers-field :
    (n : ℕ) (fields : List Text)
    → n < 2 ^ 63
    → numbers (decimal (pos n) ∷ fields) ≡ pos n ∷ numbers fields
unfolding numbers
numbers-field n fields h = ap (λ o. put o (numbers fields)) (atoi-decimal n h)

numbers-nil : numbers [] ≡ []
unfolding numbers
numbers-nil = refl

-- The numbers of a version MAJOR.MINOR.PATCH are the three that were printed, within 64 bits.
pub version_parts-release :
    (a b c : ℕ)
    → a < 2 ^ 63
    → b < 2 ^ 63
    → c < 2 ^ 63
    → version_parts (release a b c) ≡ pos a ∷ pos b ∷ pos c ∷ []
unfolding version_parts
version_parts-release a b c ha hb hc =
    let plain = release-IsPlain a b c in
    ap (λ s. numbers (split (before_suffix (trim_prefix s (b'v' ∷ []))) b'.'))
      (trim_space-plain (release a b c) plain)
    ∙ ap (λ s. numbers (split (before_suffix s) b'.')) (trim_prefix-plain (release a b c) plain)
    ∙ ap (λ s. numbers (split s b'.')) (before_suffix-plain (release a b c) plain)
    ∙ ap numbers (release-fields a b c)
    ∙ numbers-field a _ ha
    ∙ ap (◌∷◌ (pos a)) (
        numbers-field b _ hb
        ∙ ap (◌∷◌ (pos b)) (numbers-field c [] hc ∙ ap (◌∷◌ (pos c)) numbers-nil))
