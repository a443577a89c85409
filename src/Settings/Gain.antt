-- ===== src/Settings/Gain.antt =====
-- A gain, as a finite float64: `mantissa / 2 ^ scale`. A number that comes out of JSON is finite, and
-- every finite float64 is of this form, so the comparisons here are exact.
use local_dictation.Prelude.{ℕ, ◌*◌, ◌^◌, ◌+◌, ◌&&◌, Bool}
use local_dictation.Prelude.Int.{ℤ, pos, negsuc, leb_ℤ, ltb_ℤ}

pub record Gain : Type 0 where
  pub mantissa : ℤ
  pub scale : ℕ

-- `g == 0`
unfoldable pub is_zero : Gain → Bool
is_zero g = leb_ℤ g.mantissa (pos 0) && leb_ℤ (pos 0) g.mantissa

abbrev pub twice : ℤ → ℤ
twice (pos n) = pos (2 * n)
twice (negsuc n) = negsuc (2 * n + 1)

-- `g < 0.5`
unfoldable pub below_half : Gain → Bool
below_half g = ltb_ℤ (twice g.mantissa) (pos (2 ^ g.scale))

-- `g > 8`
unfoldable pub above_eight : Gain → Bool
above_eight g = ltb_ℤ (pos (8 * 2 ^ g.scale)) g.mantissa
