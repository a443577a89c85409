-- ===== src/LocalServer/Detector.antt =====
-- client/internal/localserver/detector.go; `filepath.Join`, `filepath.Dir` and the file system are
-- arguments.
use local_dictation.Prelude.{Bool, List, [], ◌∷◌, if◌then◌else◌}
use local_dictation.Text.{Text, codes, is_empty, trim_space}

-- `DetectorName`
abbrev pub detector_name : Text
detector_name = codes "silero_vad.onnx"

pub record Files : Type 0 where
  pub join_path : Text → Text → Text
  pub dir_of : Text → Text
  pub exists : Text → Bool
  pub is_file : Text → Bool

module _ (f : Files) where
  -- In `ResolveDetector`, the candidate beside the model.
  abbrev pub beside : Text → List Text
  beside model = if is_empty model then [] else f.join_path (f.dir_of model) detector_name ∷ []

  -- In `ResolveDetector`, the loop.
  unfoldable pub first_file : List Text → Text
  first_file [] = []
  first_file (c ∷ cs) =
      let rest = first_file cs in if is_empty c then rest else if f.is_file c then c else rest

  -- `ResolveDetector`
  unfoldable pub resolve_detector : Text → Text → Text
  resolve_detector configured model_path =
      first_file (trim_space configured ∷ beside (trim_space model_path))
