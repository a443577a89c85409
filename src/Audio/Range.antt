-- ===== src/Audio/Range.antt =====
-- The multiplier that is stored.
use native.Mathlib.Nat.{one-le-pow, le-div_iff_mul-le, div-lt_iff_lt-mul}
use local_dictation.Prelude.{
  ℕ, ◌*◌, ◌/◌, ◌^◌, ◌≤◌, ◌<◌, Bool, true, false, if◌then◌else◌, ◌≡◌, refl, arith,
}
use local_dictation.Prelude.Int.{ℤ, pos, negsuc, ◌≤ℤ◌}
use local_dictation.Settings.Gain.{Gain, below_half, above_eight, twice}
use local_dictation.Audio.Gain.{clamp_gain, to_fixed, truncated, set}

-- A gain between a half and eight.
abbrev pub IsOffered : Gain → Type 0
IsOffered g = (pos (2 ^ g.scale) ≤ℤ twice g.mantissa) × (g.mantissa ≤ℤ pos (8 * 2 ^ g.scale))

IsOffered-if :
    (low high : Bool) (g : Gain)
    → (low ≡ false → pos (2 ^ g.scale) ≤ℤ twice g.mantissa)
    → (high ≡ false → g.mantissa ≤ℤ pos (8 * 2 ^ g.scale))
    → IsOffered (
        if low
        then record { mantissa = pos 1; scale = 1 }
        else if high
        then record { mantissa = pos 8; scale = 0 }
        else g)
IsOffered-if true high g f h = (omega arith, omega arith)
IsOffered-if false true g f h = (omega arith, omega arith)
IsOffered-if false false g f h = (f refl, h refl)

clamp-IsOffered : (g : Gain) → IsOffered (clamp_gain g)
unfolding clamp_gain below_half above_eight
clamp-IsOffered g =
    IsOffered-if (below_half g) (above_eight g) g (λ e. ground (arith, e)) (λ e. ground (arith, e))

div_low : (n d : ℕ) → 0 < d → d ≤ 2 * n → 512 ≤ n * 1024 / d
div_low n d p h = (le-div_iff_mul-le {k = d} {x = 512} {y = n * 1024} p).1 (omega (arith, h))

div_high : (n d : ℕ) → 0 < d → n ≤ 8 * d → n * 1024 / d < 8193
div_high n d p h = (div-lt_iff_lt-mul {k = d} {x = n * 1024} {y = 8193} p).1 (omega (arith, p, h))

power_positive : (k : ℕ) → 0 < 2 ^ k
power_positive k = one-le-pow k 2 (omega arith)

stored :
    (m : ℤ) (k : ℕ)
    → pos (2 ^ k) ≤ℤ twice m
    → m ≤ℤ pos (8 * 2 ^ k)
    → (n : ℕ) × (truncated k m ≡ pos n) × (512 ≤ n) × (n ≤ 8192)
stored (pos m) k low high =
    let d = power_positive k in
    (
      m * 1024 / 2 ^ k,
      refl,
      div_low m (2 ^ k) d (omega (arith, low)),
      omega (arith, div_high m (2 ^ k) d (omega (arith, high))),
    )
stored (negsuc m) k low high = absurd (omega (arith, low, power_positive k))

-- Whatever multiplier is asked for, the one that is stored is from 512 to 8192 in units of 1/1024.
pub set-range : (g : Gain) → (n : ℕ) × (set g ≡ pos n) × (512 ≤ n) × (n ≤ 8192)
unfolding set to_fixed
set-range g =
    let (low, high) = clamp-IsOffered g in
    stored (clamp_gain g).mantissa (clamp_gain g).scale low high
