-- ===== src/Models/Catalogue.antt =====
-- client/internal/models/catalogue.go
use local_dictation.Prelude.{
  ℕ, ◌+◌, ◌*◌, ◌^◌, ◌/◌, ◌%◌, ◌==◌, Bool, true, false, ◌||◌, List, [], ◌∷◌, ◌++◌, Option, none,
  some, if◌then◌else◌, leb, ltb,
}
use local_dictation.Prelude.Int.{pos}
use local_dictation.Text.{Text, codes, beq}
use local_dictation.Text.Decimal.{decimal}
use local_dictation.Settings.Backend.{
  Backend, backend_cpu, backend_intel_gpu, backend_apple_gpu, normalise, weights,
}

pub data Role : Type 0 where
  accurate draft detector : Role

-- `role == Detector`
abbrev pub is_detector : Role → Bool
is_detector detector = true
is_detector _ = false

-- `role == Accurate`
abbrev pub is_accurate : Role → Bool
is_accurate accurate = true
is_accurate _ = false

pub record Model : Type 0 where
  pub name : Text
  pub repo : Text
  pub url : Text
  pub backend : Backend
  pub role : Role
  pub summary : Text
  pub bytes : ℕ

abbrev pub mib : ℕ
mib = 2 ^ 20

abbrev pub gib : ℕ
gib = 2 ^ 30

-- `SileroURL`
abbrev pub silero_url : Text
silero_url =
    codes
      "https://raw.githubusercontent.com/snakers4/silero-vad/master/src/silero_vad/data/silero_vad.onnx"

-- A model out of a repository.
abbrev pub from_repo : Text → Text → Backend → Role → Text → ℕ → Model
from_repo name repo backend role summary bytes = record {
  name = name;
  repo = repo;
  url = [];
  backend = backend;
  role = role;
  summary = summary;
  bytes = bytes;
}

-- `Catalogue`
abbrev pub catalogue : List Model
catalogue =
    from_repo (codes "large-v3-turbo") (codes "deepdml/faster-whisper-large-v3-turbo-ct2")
      backend_cpu accurate (codes "The usual choice on a CPU.") (1546 * mib)
    ∷ from_repo (codes "large-v3") (codes "Systran/faster-whisper-large-v3") backend_cpu accurate
        (codes "More accurate, several times slower.") (2 * gib)
    ∷ from_repo (codes "base") (codes "Systran/faster-whisper-base") backend_cpu draft
        (codes "Draft model: live text only, never kept.") (140 * mib)
    ∷ from_repo (codes "large-v3-turbo-openvino-int8")
        (codes "OpenVINO/whisper-large-v3-turbo-int8-ov") backend_intel_gpu accurate
        (codes "The usual choice on an Intel GPU.") (790 * mib)
    ∷ from_repo (codes "large-v3-turbo-openvino-fp16")
        (codes "OpenVINO/whisper-large-v3-turbo-fp16-ov") backend_intel_gpu accurate
        (codes "The accuracy reference to measure INT8 against.") (1638 * mib)
    ∷ from_repo (codes "large-v3-turbo-openvino-int4")
        (codes "OpenVINO/whisper-large-v3-turbo-int4-ov") backend_intel_gpu accurate
        (codes "Smallest and fastest; check Korean accuracy first.") (600 * mib)
    ∷ from_repo (codes "large-v3-turbo-mlx") (codes "mlx-community/whisper-large-v3-turbo")
        backend_apple_gpu accurate (codes "The usual choice on an Apple Silicon GPU.") (1546 * mib)
    ∷ record {
      name = codes "silero_vad.onnx";
      repo = [];
      url = silero_url;
      backend = [];
      role = detector;
      summary = codes "Decides when you have stopped speaking.";
      bytes = 2214 * 1024;
    }
    ∷ []

-- In `For`, the loop.
unfoldable pub usable : Backend → List Model → List Model
usable backend [] = []
usable backend (m ∷ models) =
    let rest = usable backend models in
    if is_detector m.role || beq (normalise m.backend) (normalise backend) then m ∷ rest else rest

-- `For`
abbrev pub for : Backend → List Model
for backend = usable backend catalogue

-- In `Find`, the loop.
unfoldable pub find_model : Text → List Model → Option Model
find_model name [] = none
find_model name (m ∷ models) =
    let rest = find_model name models in if beq m.name name then some m else rest

-- `Model.Weights`
abbrev pub weights_of : Model → Text
weights_of m = if is_detector m.role then m.name else weights m.backend

-- `Model.IsFile`
abbrev pub is_file : Model → Bool
is_file m = is_detector m.role

-- `%.1f` of bytes over a power of two, in tenths: rounded to the nearest, a tie to the even one.
abbrev pub tenths : ℕ → ℕ → ℕ
tenths n unit =
    let quotient = n * 10 / unit in
    let rest = n * 10 % unit * 2 in
    if ltb unit rest
    then quotient + 1
    else if rest == unit
    then quotient + quotient % 2
    else quotient

-- In `Size`, a number and its unit.
abbrev pub amount : ℕ → Text → Text
amount n unit = decimal (pos n) ++ unit

-- `Size`, of sizes that a float64 holds exactly
unfoldable pub size_text : ℕ → Text
size_text bytes =
    if leb gib bytes
    then amount (tenths bytes gib / 10) (codes "." ++ amount (tenths bytes gib % 10) (codes " GB"))
    else if leb mib bytes
    then amount (bytes / mib) (codes " MB")
    else if leb 1024 bytes
    then amount (bytes / 1024) (codes " KB")
    else amount bytes (codes " B")
