-- ===== src/Text/Decimal.antt =====
-- Numbers as decimal digits: `%d` of the package `fmt`, and `strconv.Atoi`.
use local_dictation.Prelude.{
  ℕ, zero, suc, ◌+◌, ◌-◌, ◌*◌, ◌/◌, ◌%◌, ◌^◌, ◌<◌, ◌≤◌, Bool, true, false, ◌&&◌, [], ◌∷◌, Option,
  none, some, leb, ltb, ◌==◌, if◌then◌else◌, ◌≡◌, refl, sym, ap, ◌≢◌, ◌∙◌, inl, inr, arith,
  Bool-cases, All,
}
use local_dictation.Prelude.Int.{ℤ, pos, negsuc}
use local_dictation.Text.{Text}

-- `%d` of a natural number: the digits, on fuel, before those that are there.
unfoldable pub digits : ℕ → ℕ → Text → Text
digits zero n acc = acc
digits (suc fuel) n acc =
    let more = digits fuel (n / 10) ((48 + n % 10) ∷ acc) in
    if leb 10 n then more else (48 + n % 10) ∷ acc

-- `%d`
unfoldable pub decimal : ℤ → Text
decimal (pos n) = digits (suc n) n []
decimal (negsuc n) = 45 ∷ digits (suc (suc n)) (suc n) []

-- The value of a text of digits, after the digits of `n`; `none` where another character stands.
unfoldable pub digits_value : ℕ → Text → Option ℕ
digits_value n [] = some n
digits_value n (c ∷ s) =
    let rest = digits_value (n * 10 + (c - 48)) s in if leb 48 c && leb c 57 then rest else none

-- At least one digit.
abbrev pub unsigned : Text → Option ℕ
unsigned [] = none
unsigned (c ∷ s) = digits_value 0 (c ∷ s)

abbrev pub positive : Option ℕ → Option ℤ
positive none = none
positive (some n) = if ltb n (2 ^ 63) then some (pos n) else none

abbrev pub negative : Option ℕ → Option ℤ
negative none = none
negative (some n) =
    if n == 0 then some (pos 0) else if leb n (2 ^ 63) then some (negsuc (n - 1)) else none

-- `strconv.Atoi`: an optional sign and digits, within 64 bits.
unfoldable pub atoi : Text → Option ℤ
atoi [] = none
atoi (c ∷ s) =
    if c == b'+'
    then positive (unsigned s)
    else if c == b'-'
    then negative (unsigned s)
    else positive (unsigned (c ∷ s))

abbrev pub IsDigit : ℕ → Type 0
IsDigit c = (48 ≤ c) × (c ≤ 57)

digits-IsDigit : (fuel n : ℕ) (rest : Text) → All IsDigit rest → All IsDigit (digits fuel n rest)
unfolding digits
digits-IsDigit zero n rest h = h
digits-IsDigit (suc fuel) n rest h =
    let shown : All IsDigit ((48 + n % 10) ∷ rest) = ((omega arith, omega arith), h) in
    chosen (leb 10 n) _ _ (digits-IsDigit fuel (n / 10) ((48 + n % 10) ∷ rest) shown) shown
  where
    chosen :
        (b : Bool) (s t : Text) → All IsDigit s → All IsDigit t → All IsDigit (if b then s else t)
    chosen true s t x y = x
    chosen false s t x y = y

if_then : (b : Bool) (x y : Text) → b ≡ true → (if b then x else y) ≡ x
if_then true x y h = refl
if_then false x y h = absurd (ground (arith, h))

if_else : (b : Bool) (x y : Text) → b ≡ false → (if b then x else y) ≡ y
if_else true x y h = absurd (ground (arith, h))
if_else false x y h = refl

digit_step :
    (m d : ℕ) (rest : Text)
    → d < 10
    → digits_value m ((48 + d) ∷ rest) ≡ digits_value (m * 10 + d) rest
unfolding digits_value
digit_step m d rest h =
    let same : m * 10 + (48 + d - 48) ≡ m * 10 + d = omega arith in
    let read : (leb 48 (48 + d) && leb (48 + d) 57) ≡ true = ground (arith, h) in
    value_if _ _ read ∙ ap (λ k. digits_value k rest) same
  where
    value_if : (b : Bool) (o : Option ℕ) → b ≡ true → (if b then o else none) ≡ o
    value_if true o e = refl
    value_if false o e = absurd (ground (arith, e))

digits_value-digits :
    (fuel n : ℕ) (rest : Text)
    → n < fuel
    → digits_value 0 (digits fuel n rest) ≡ digits_value n rest
unfolding digits
digits_value-digits zero n rest h = absurd (omega (arith, h))
digits_value-digits (suc fuel) n rest h = elim (Bool-cases (leb 10 n)) [
  | inl big ↦
      ap (digits_value 0) (if_then (leb 10 n) _ _ big)
      ∙ digits_value-digits fuel (n / 10) ((48 + n % 10) ∷ rest) (ground (arith, big, h))
      ∙ digit_step (n / 10) (n % 10) rest (omega arith)
      ∙ ap (λ k. digits_value k rest) (omega arith)
  | inr small ↦
      ap (digits_value 0) (if_else (leb 10 n) _ _ small)
      ∙ digit_step 0 (n % 10) rest (omega arith)
      ∙ ap (λ k. digits_value k rest) (ground (arith, small))
]

digits-filled : (fuel n : ℕ) (rest : Text) → rest ≢ [] → digits fuel n rest ≢ []
unfolding digits
digits-filled zero n rest h = h
digits-filled (suc fuel) n rest h = elim (Bool-cases (leb 10 n)) [
  | inl big ↦ λ e.
      digits-filled fuel (n / 10) ((48 + n % 10) ∷ rest) (λ k. ground (arith, k))
        (sym (if_then (leb 10 n) _ _ big) ∙ e)
  | inr small ↦ λ e. ground (
    arith,
    sym (
          if_else (leb 10 n) (digits fuel (n / 10) ((48 + n % 10) ∷ rest)) ((48 + n % 10) ∷ rest)
            small)
        ∙ e,
  )
]

-- A text of digits that is not empty is read as its value, within 64 bits.
atoi_digits :
    (s : Text) (n : ℕ)
    → All IsDigit s
    → s ≢ []
    → digits_value 0 s ≡ some n
    → n < 2 ^ 63
    → atoi s ≡ some (pos n)
unfolding atoi
atoi_digits [] n d f e h = absurd (f refl)
atoi_digits (c ∷ s) n ((low, high), d) f e h = ground (arith, low, high, e, h)

pub decimal-IsDigit : (n : ℕ) → All IsDigit (decimal (pos n))
unfolding decimal
decimal-IsDigit n = digits-IsDigit (suc n) n [] tt

pub decimal-filled : (n : ℕ) → decimal (pos n) ≢ []
unfolding decimal digits
decimal-filled n = elim (Bool-cases (leb 10 n)) [
  | inl big ↦ λ e.
      digits-filled n (n / 10) ((48 + n % 10) ∷ []) (λ k. ground (arith, k))
        (sym (if_then (leb 10 n) _ _ big) ∙ e)
  | inr small ↦ λ e. ground (
    arith,
    sym (if_else (leb 10 n) (digits n (n / 10) ((48 + n % 10) ∷ [])) ((48 + n % 10) ∷ []) small)
        ∙ e,
  )
]

-- What is printed is read back.
pub atoi-decimal : (n : ℕ) → n < 2 ^ 63 → atoi (decimal (pos n)) ≡ some (pos n)
unfolding decimal digits_value
atoi-decimal n h =
    atoi_digits _ n (decimal-IsDigit n) (decimal-filled n)
      (digits_value-digits (suc n) n [] (omega arith)) h
