-- ===== src/Text/Laws.antt =====
-- Laws of the functions on texts.
use local_dictation.Prelude.{true, [], ◌∷◌, ◌++◌, ◌≡◌, refl, ◌↔◌, arith, drop-length-append}
use local_dictation.Text.{Text, is_empty, beq, has_prefix, trim_prefix}

pub beq_iff : (s t : Text) → (beq s t ≡ true) ↔ (s ≡ t)
unfolding beq
beq_iff (c ∷ s) (d ∷ t) = ground (arith, beq_iff s t)
beq_iff _ _ = ground arith

pub beq_refl : (s : Text) → beq s s ≡ true
beq_refl s = (beq_iff s s).1 refl

pub is_empty_iff : (s : Text) → (is_empty s ≡ true) ↔ (s ≡ [])
unfolding is_empty
is_empty_iff [] = ground arith
is_empty_iff (c ∷ s) = ground arith

pub has_prefix-append : (p r : Text) → has_prefix (p ++ r) p ≡ true
unfolding has_prefix
has_prefix-append [] r = refl
has_prefix-append (c ∷ p) r = ground (arith, has_prefix-append p r)

-- A text with a prefix is the prefix and what is left of the text without it.
pub append-trim_prefix : (s p : Text) → has_prefix s p ≡ true → s ≡ p ++ trim_prefix s p
unfolding trim_prefix
append-trim_prefix s [] h = refl
append-trim_prefix [] (d ∷ p) h = ground arith
append-trim_prefix (c ∷ s) (d ∷ p) h = ground (arith, append-trim_prefix s p)

pub trim_prefix-append : (p r : Text) → trim_prefix (p ++ r) p ≡ r
unfolding trim_prefix
trim_prefix-append p r = rw (has_prefix-append p r) (drop-length-append p r)
