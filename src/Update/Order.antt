-- ===== src/Update/Order.antt =====
-- The order that `IsNewer` stands for: the numbers of a version from the left, zeros after the last.
use local_dictation.Prelude.{
  ℕ, zero, suc, ◌<◌, true, false, List, [], ◌∷◌, ◌≡◌, ◌↔◌, sym, ◌∙◌, inl, inr, arith, ltb,
  Bool-cases,
}
use local_dictation.Prelude.Int.{ℤ, pos, ltb_ℤ, eq_of_parts}
use local_dictation.Text.{Text}
use local_dictation.Update.Version.{
  compare_values, compare_parts, compare_versions, version_parts, is_newer,
}

abbrev pub part : List ℤ → ℕ → ℤ
part [] n = pos 0
part (a ∷ v) zero = a
part (a ∷ v) (suc n) = part v n

-- The first number in which the two sequences differ is greater in the first.
pub record Above (f g : ℕ → ℤ) : Type 0 where
  pub index : ℕ
  pub equal : (j : ℕ) → j < index → f j ≡ g j
  pub greater : ltb_ℤ (g index) (f index) ≡ true

later : {f g : ℕ → ℤ} → f 0 ≡ g 0 → Above (λ n. f (suc n)) (λ n. g (suc n)) → Above f g
later {f = f} {g = g} e h = record { index = suc h.index; equal = equal; greater = h.greater }
  where
    equal : (j : ℕ) → j < suc h.index → f j ≡ g j
    equal zero _ = e
    equal (suc j) l = h.equal j (omega (arith, l))

Above-step :
    (f g : ℕ → ℤ) (rest : ℤ)
    → (rest ≡ pos 1 → Above (λ n. f (suc n)) (λ n. g (suc n)))
    → compare_values (f 0) (g 0) rest ≡ pos 1
    → Above f g
Above-step f g rest h e = elim (Bool-cases (ltb_ℤ (g 0) (f 0))) [
  | inl gt ↦ record { index = 0; equal = λ j l. absurd (omega (arith, l)); greater = gt }
  | inr le ↦ elim (Bool-cases (ltb_ℤ (f 0) (g 0))) [
    | inl lt ↦ absurd (ground (arith, e, le, lt))
    | inr ge ↦
        later (eq_of_parts (f 0) (g 0) (ground (arith, le, ge))) (h (ground (arith, e, le, ge)))
  ]
]

compare_step :
    (f g : ℕ → ℤ) (rest : ℤ)
    → (Above (λ n. f (suc n)) (λ n. g (suc n)) → rest ≡ pos 1)
    → Above f g
    → compare_values (f 0) (g 0) rest ≡ pos 1
compare_step f g rest h a = from a.index a.equal a.greater
  where
    from :
        (i : ℕ)
        → ((j : ℕ) → j < i → f j ≡ g j)
        → ltb_ℤ (g i) (f i) ≡ true
        → compare_values (f 0) (g 0) rest ≡ pos 1
    from zero equal gt = ground (arith, gt)
    from (suc i) equal gt =
        let same = equal 0 (omega arith) in
        let found =
          h (record { index = i; equal = λ j l. equal (suc j) (omega (arith, l)); greater = gt }) in
        ground (arith, same, found)

compare-Above : (v w : List ℤ) → compare_parts v w ≡ pos 1 → Above (part v) (part w)
unfolding compare_parts
compare-Above [] [] e = absurd (ground (arith, e))
compare-Above (a ∷ v) [] e = Above-step (part (a ∷ v)) (part []) _ (compare-Above v []) e
compare-Above [] (b ∷ w) e = Above-step (part []) (part (b ∷ w)) _ (compare-Above [] w) e
compare-Above (a ∷ v) (b ∷ w) e = Above-step (part (a ∷ v)) (part (b ∷ w)) _ (compare-Above v w) e

compare_above : (v w : List ℤ) → Above (part v) (part w) → compare_parts v w ≡ pos 1
unfolding compare_parts
compare_above [] [] h = absurd (ground (arith, h.greater))
compare_above (a ∷ v) [] h = compare_step (part (a ∷ v)) (part []) _ (compare_above v []) h
compare_above [] (b ∷ w) h = compare_step (part []) (part (b ∷ w)) _ (compare_above [] w) h
compare_above (a ∷ v) (b ∷ w) h = compare_step (part (a ∷ v)) (part (b ∷ w)) _ (compare_above v w) h

-- A result above zero is one.
compare_one : (v w : List ℤ) → ltb_ℤ (pos 0) (compare_parts v w) ≡ true → compare_parts v w ≡ pos 1
unfolding compare_parts
compare_one [] [] e = ground (arith, e)
compare_one (a ∷ v) [] e = ground (arith, e, compare_one v [])
compare_one [] (b ∷ w) e = ground (arith, e, compare_one [] w)
compare_one (a ∷ v) (b ∷ w) e = ground (arith, e, compare_one v w)

-- The numbers of a version, zero after the last.
abbrev pub numbers_of : Text → ℕ → ℤ
numbers_of v = part (version_parts v)

-- One version is newer than another exactly when, in the first number in which they differ, it has the
-- greater one; numbers that a version does not have count as zero.
pub is_newer_iff : (a b : Text) → (is_newer a b ≡ true) ↔ Above (numbers_of a) (numbers_of b)
unfolding is_newer compare_versions
is_newer_iff a b =
    let v = version_parts a in
    let w = version_parts b in
    (
      λ e. compare-Above v w (compare_one v w e),
      λ h. let one = compare_above v w h in ground (arith, one),
    )

Above-irrefl : (f : ℕ → ℤ) → Above f f → ⊥
Above-irrefl f h = ground (arith, h.greater)

Above-trans : {f g h : ℕ → ℤ} → Above f g → Above g h → Above f h
Above-trans {f = f} {g = g} {h = h} a b = elim (Bool-cases (ltb a.index b.index)) [
  | inl l ↦ record {
    index = a.index;
    equal = λ j k. a.equal j k ∙ b.equal j (ground (arith, k, l));
    greater = rw (sym (b.equal a.index (ground (arith, l)))) a.greater;
  }
  | inr l ↦ elim (Bool-cases (ltb b.index a.index)) [
    | inl k ↦ record {
      index = b.index;
      equal = λ j m. a.equal j (ground (arith, m, k)) ∙ b.equal j m;
      greater = rw (a.equal b.index (ground (arith, k))) b.greater;
    }
    | inr k ↦
        let same : a.index ≡ b.index = ground (arith, k, l) in
        let over : ltb_ℤ (h a.index) (g a.index) ≡ true = rw same b.greater in
        record {
          index = a.index;
          equal = λ j m. a.equal j m ∙ b.equal j (omega (arith, m, same));
          greater = ground (arith, a.greater, over);
        }
  ]
]

-- No version is newer than itself, and a version that is newer than a newer one is newer.
pub is_newer_strict :
    (a b c : Text)
    → (is_newer a a ≡ false) × (is_newer a b ≡ true → is_newer b c ≡ true → is_newer a c ≡ true)
is_newer_strict a b c = (
  elim (Bool-cases (is_newer a a)) [
    | inl e ↦ absurd (Above-irrefl (numbers_of a) ((is_newer_iff a a).0 e))
    | inr e ↦ e
  ],
  λ h k. (is_newer_iff a c).1 (Above-trans ((is_newer_iff a b).0 h) ((is_newer_iff b c).0 k)),
)
