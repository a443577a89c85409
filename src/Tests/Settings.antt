-- ===== src/Tests/Settings.antt =====
-- Settings, and a frame at a gain.
use local_dictation.Prelude.{[], ◌∷◌, ◌≡◌, ◌↔◌, All, arith}
use local_dictation.Text.{codes}
use local_dictation.Settings.Config.{Config, default}
use local_dictation.Settings.Validate.{validate}
use local_dictation.Settings.Validity.{validate_iff}
use local_dictation.Settings.Validity.Conditions.{Usable}
use local_dictation.Audio.Gain.{apply}
use local_dictation.Audio.Samples.{IsByte, samples, Pairwise, Amplified, apply-Amplified}

abbrev fresh : Config
fresh = default (codes "/models/large-v3-turbo")

validate_iff_example : (validate (codes "linux") fresh ≡ []) ↔ Usable (codes "linux") fresh
validate_iff_example = validate_iff (codes "linux") fresh

-- A quiet sample, one that saturates, and an odd byte.
frame_bytes_are : All IsByte (16 ∷ 0 ∷ 255 ∷ 127 ∷ 7 ∷ [])
frame_bytes_are = (omega arith, (omega arith, (omega arith, (omega arith, (omega arith, tt)))))

apply-Amplified_example :
    Pairwise
      (Amplified 4096)
      (samples (16 ∷ 0 ∷ 255 ∷ 127 ∷ 7 ∷ []))
      (samples (apply 4096 (16 ∷ 0 ∷ 255 ∷ 127 ∷ 7 ∷ [])))
apply-Amplified_example = apply-Amplified 4096 (16 ∷ 0 ∷ 255 ∷ 127 ∷ 7 ∷ []) frame_bytes_are
