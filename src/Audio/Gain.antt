-- ===== src/Audio/Gain.antt =====
-- `gain` of client/internal/audio/gain.go: the multiplier in fixed point, and the samples of one frame,
-- which are two bytes each, the low one first.
use local_dictation.Prelude.{
  ℕ, zero, suc, ◌+◌, ◌-◌, ◌*◌, ◌/◌, ◌%◌, ◌^◌, List, [], ◌∷◌, ltb, ◌==◌, if◌then◌else◌,
}
use local_dictation.Prelude.Int.{ℤ, pos, negsuc}
use local_dictation.Settings.Gain.{Gain, below_half, above_eight}

abbrev pub gain_scale : ℕ
gain_scale = 1024

-- `ClampGain`
unfoldable pub clamp_gain : Gain → Gain
clamp_gain g =
    if below_half g
    then record { mantissa = pos 1; scale = 1 }
    else if above_eight g
    then record { mantissa = pos 8; scale = 0 }
    else g

-- The integer of the opposite sign.
abbrev pub negate : ℕ → ℤ
negate zero = pos 0
negate (suc n) = negsuc n

abbrev pub truncated : ℕ → ℤ → ℤ
truncated scale (pos n) = pos (n * gain_scale / 2 ^ scale)
truncated scale (negsuc n) = negate (suc n * gain_scale / 2 ^ scale)

-- `int64(g * gainScale)`: the product by a power of two is exact, the conversion cuts off the fraction.
unfoldable pub to_fixed : Gain → ℤ
to_fixed g = truncated g.scale g.mantissa

-- `gain.set`: the value that is stored.
unfoldable pub set : Gain → ℤ
set g = to_fixed (clamp_gain g)

-- `int16(binary.LittleEndian.Uint16(b))`
unfoldable pub sample_of : ℕ → ℕ → ℤ
sample_of low high =
    let word = low + 256 * high in if ltb word 32768 then pos word else negsuc (65535 - word)

-- `uint16(int16(s))` for a sample within 16 bits
unfoldable pub word_of : ℤ → ℕ
word_of (pos n) = n
word_of (negsuc n) = 65535 - n

-- `s * fixed / gainScale` on integers, which cuts off towards zero, for a factor that is not negative.
unfoldable pub scaled : ℕ → ℤ → ℤ
scaled fixed (pos n) = pos (n * fixed / gain_scale)
scaled fixed (negsuc n) = negate (suc n * fixed / gain_scale)

-- The `switch` that pins a sample to 16 bits.
unfoldable pub pinned : ℤ → ℤ
pinned (pos n) = if ltb 32767 n then pos 32767 else pos n
pinned (negsuc n) = if ltb 32767 n then negsuc 32767 else negsuc n

-- The loop of `apply`; a last odd byte is left alone.
unfoldable pub scale_frame : ℕ → List ℕ → List ℕ
scale_frame fixed [] = []
scale_frame fixed (low ∷ []) = low ∷ []
scale_frame fixed (low ∷ high ∷ pcm) =
    let word = word_of (pinned (scaled fixed (sample_of low high))) in
    (word % 256) ∷ (word / 256) ∷ scale_frame fixed pcm

-- `apply`
unfoldable pub apply : ℕ → List ℕ → List ℕ
apply fixed pcm = if fixed == gain_scale then pcm else scale_frame fixed pcm
