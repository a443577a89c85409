-- ===== src/Audio/Samples.antt =====
-- A frame as the samples it holds.
use mathlib.Core.Path.{subst}
use local_dictation.Prelude.{
  ℕ, zero, suc, ◌≤◌, ◌⊎◌, inl, inr, Bool-cases, ◌+◌, ◌*◌, ◌/◌, ◌%◌, ◌<◌, Bool, true, false, List,
  [], ◌∷◌, map, if◌then◌else◌, ◌≡◌, ◌==◌, refl, sym, ap, ◌∙◌, arith, All, ltb, ==_iff,
}
use local_dictation.Prelude.Int.{ℤ, pos, negsuc}
use local_dictation.Audio.Gain.{
  gain_scale, sample_of, word_of, scaled, pinned, scale_frame, apply, negate,
}

abbrev pub IsByte : ℕ → Type 0
IsByte b = b < 256

-- The samples of a frame, without a last odd byte.
unfoldable pub samples : List ℕ → List ℤ
samples [] = []
samples (low ∷ []) = []
samples (low ∷ high ∷ pcm) = sample_of low high ∷ samples pcm

-- A sample within 16 bits.
abbrev pub IsSample : ℤ → Type 0
IsSample (pos n) = n < 32768
IsSample (negsuc n) = n < 32768

IsSample-if :
    (b : Bool) (x y : ℤ)
    → (b ≡ true → IsSample x)
    → (b ≡ false → IsSample y)
    → IsSample (if b then x else y)
IsSample-if true x y f g = f refl
IsSample-if false x y f g = g refl

sample_of-IsSample : (low high : ℕ) → IsByte low → IsByte high → IsSample (sample_of low high)
unfolding sample_of
sample_of-IsSample low high l h =
    IsSample-if (ltb (low + 256 * high) 32768) _ _ (λ e. ground (arith, e))
      (λ e. ground (arith, e, l, h))

pinned-IsSample : (s : ℤ) → IsSample (pinned s)
unfolding pinned
pinned-IsSample (pos n) = IsSample-if (ltb 32767 n) _ _ (λ e. omega arith) (λ e. ground (arith, e))
pinned-IsSample (negsuc n) =
    IsSample-if (ltb 32767 n) _ _ (λ e. omega arith) (λ e. ground (arith, e))

encode_decode : (s : ℤ) → IsSample s → sample_of (word_of s % 256) (word_of s / 256) ≡ s
unfolding sample_of word_of
encode_decode (pos n) h = ground arith
encode_decode (negsuc n) h = ground arith

scaled-unity : (s : ℤ) → scaled gain_scale s ≡ s
unfolding scaled
scaled-unity (pos n) = ap pos (omega arith)
scaled-unity (negsuc n) = let same : suc n * 1024 / 1024 ≡ suc n = omega arith in ap negate same

pinned-same : (s : ℤ) → IsSample s → pinned s ≡ s
unfolding pinned
pinned-same (pos n) h = ground arith
pinned-same (negsuc n) h = ground arith

scaled-samples :
    (fixed : ℕ) (pcm : List ℕ)
    → samples (scale_frame fixed pcm) ≡ map (λ s. pinned (scaled fixed s)) (samples pcm)
unfolding samples scale_frame
scaled-samples fixed [] = refl
scaled-samples fixed (low ∷ []) = refl
scaled-samples fixed (low ∷ high ∷ pcm) =
    let s = scaled fixed (sample_of low high) in
    rw (encode_decode (pinned s) (pinned-IsSample s))
      (ap (◌∷◌ (pinned s)) (scaled-samples fixed pcm))

unity-samples :
    (pcm : List ℕ)
    → All IsByte pcm
    → map (λ s. pinned (scaled gain_scale s)) (samples pcm) ≡ samples pcm
unfolding samples
unity-samples [] h = refl
unity-samples (low ∷ []) h = refl
unity-samples (low ∷ high ∷ pcm) (l, (h, hs)) =
    let s = sample_of low high in
    rw (scaled-unity s, pinned-same s (sample_of-IsSample low high l h), unity-samples pcm hs) refl

-- The magnitude `k` is the quotient of `product` by 1024 without its remainder, and not more than `most`,
-- or `most` where the quotient is more.
abbrev pub Quotient : ℕ → ℕ → ℕ → Type 0
Quotient most product k =
    ((k ≤ most) × (k * 1024 ≤ product) × (product < (k + 1) * 1024))
    ⊎ ((k ≡ most) × ((most + 1) * 1024 ≤ product))

-- `r` is the sample `s` times the gain in 1024ths, cut off towards zero, and 32767 or -32768 where the
-- product is beyond.
abbrev pub Amplified : ℕ → ℤ → ℤ → Type 0
Amplified fixed (pos n) r = (k : ℕ) × (r ≡ pos k) × Quotient 32767 (n * fixed) k
Amplified fixed (negsuc n) r = (k : ℕ) × (r ≡ negate k) × Quotient 32768 (suc n * fixed) k

-- Two lists of the same length, related in each place.
abbrev pub Pairwise : (ℤ → ℤ → Type 0) → List ℤ → List ℤ → Type 0
Pairwise R [] [] = Unit
Pairwise R (x ∷ xs) (y ∷ ys) = R x y × Pairwise R xs ys
Pairwise R [] (y ∷ ys) = ⊥
Pairwise R (x ∷ xs) [] = ⊥

pinned-Quotient :
    (product : ℕ) → (k : ℕ) × (pinned (pos (product / 1024)) ≡ pos k) × Quotient 32767 product k
unfolding pinned
pinned-Quotient product = elim (Bool-cases (ltb 32767 (product / 1024))) [
  | inl over ↦ (32767, ground (arith, over), inr (refl, ground (arith, over)))
  | inr under ↦
      (product / 1024, ground (arith, under), inl (ground (arith, under), omega arith, omega arith))
]

negate-Quotient :
    (product q : ℕ)
    → q ≡ product / 1024
    → (k : ℕ) × (pinned (negate q) ≡ negate k) × Quotient 32768 product k
unfolding pinned
negate-Quotient product zero e = (0, refl, inl (omega arith, omega arith, omega (arith, e)))
negate-Quotient product (suc q) e = elim (Bool-cases (ltb 32767 q)) [
  | inl over ↦ (32768, ground (arith, over), inr (refl, ground (arith, over, e)))
  | inr under ↦ (
    suc q,
    ground (arith, under),
    inl (ground (arith, under), omega (arith, e), omega (arith, e)),
  )
]

amplified : (fixed : ℕ) (s : ℤ) → Amplified fixed s (pinned (scaled fixed s))
unfolding scaled
amplified fixed (pos n) = pinned-Quotient (n * fixed)
amplified fixed (negsuc n) = negate-Quotient (suc n * fixed) (suc n * fixed / gain_scale) refl

map-Pairwise :
    (R : ℤ → ℤ → Type 0) (f : ℤ → ℤ)
    → ((s : ℤ) → R s (f s))
    → (xs : List ℤ) → Pairwise R xs (map f xs)
map-Pairwise R f h [] = tt
map-Pairwise R f h (x ∷ xs) = (h x, map-Pairwise R f h xs)

samples-apply :
    (fixed : ℕ) (pcm : List ℕ)
    → All IsByte pcm
    → samples (apply fixed pcm) ≡ map (λ s. pinned (scaled fixed s)) (samples pcm)
unfolding apply
samples-apply fixed pcm h = skipped (fixed == gain_scale) refl
  where
    skipped :
        (b : Bool)
        → (fixed == gain_scale) ≡ b
        → samples (if b then pcm else scale_frame fixed pcm)
          ≡ map (λ s. pinned (scaled fixed s)) (samples pcm)
    skipped true e = sym (
        ap (λ f. map (λ s. pinned (scaled f s)) (samples pcm)) ((==_iff fixed gain_scale).0 e)
        ∙ unity-samples pcm h)
    skipped false e = scaled-samples fixed pcm

-- On every frame of bytes, and for every stored gain, `apply` leaves in place of each sample its product
-- with the gain in 1024ths, cut off towards zero, and 32767 or -32768 where that is out of 16 bits, also
-- where it skips the loop at unity.
pub apply-Amplified :
    (fixed : ℕ) (pcm : List ℕ)
    → All IsByte pcm
    → Pairwise (Amplified fixed) (samples pcm) (samples (apply fixed pcm))
apply-Amplified fixed pcm h =
    subst (Pairwise (Amplified fixed) (samples pcm)) (sym (samples-apply fixed pcm h)) (
      map-Pairwise (Amplified fixed) (λ s. pinned (scaled fixed s)) (amplified fixed) (samples pcm))
