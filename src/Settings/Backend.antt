-- ===== src/Settings/Backend.antt =====
-- `Backend` of client/internal/localserver/backend.go; `runtime.GOOS` is an argument.
use local_dictation.Prelude.{Bool, true, ◌||◌, List, [], ◌∷◌, ◌++◌, if◌then◌else◌}
use local_dictation.Text.{Text, codes, is_empty, beq}

-- A string type.
abbrev pub Backend : Type 0
Backend = Text

abbrev pub backend_cpu : Backend
backend_cpu = codes "cpu"

abbrev pub backend_intel_gpu : Backend
backend_intel_gpu = codes "intel-gpu"

abbrev pub backend_apple_gpu : Backend
backend_apple_gpu = codes "apple-gpu"

-- `Backends`
abbrev pub backends : List Backend
backends = backend_cpu ∷ backend_intel_gpu ∷ backend_apple_gpu ∷ []

-- `Backend.Normalise`
unfoldable pub normalise : Backend → Backend
normalise b = if is_empty b then backend_cpu else b

-- `Backend.Valid`
unfoldable pub is_backend : Backend → Bool
is_backend b =
    let n = normalise b in beq n backend_cpu || beq n backend_intel_gpu || beq n backend_apple_gpu

-- The `switch` of the methods below, on the backends that are no default.
abbrev pub switch {ℓ} : {A : Type ℓ} → Backend → A → A → A → A
switch b intel apple other =
    let n = normalise b in
    if beq n backend_intel_gpu then intel else if beq n backend_apple_gpu then apple else other

-- `Backend.SupportedOn`
unfoldable pub supported_on : Backend → Text → Bool
supported_on b goos =
    switch b (beq goos (codes "windows") || beq goos (codes "linux")) (beq goos (codes "darwin"))
      true

-- `Backend.Label`
unfoldable pub label : Backend → Text
label b = switch b (codes "Intel GPU") (codes "Apple GPU") (codes "CPU")

-- `Backend.Engine`
unfoldable pub engine : Backend → Text
engine b = switch b (codes "openvino") (codes "mlx") (codes "whisper")

-- `Backend.Device`
unfoldable pub device : Backend → Text
device b = if beq (normalise b) backend_intel_gpu then codes "GPU" else codes "cpu"

-- `Backend.Weights`
unfoldable pub weights : Backend → Text
weights b =
    switch b (codes "openvino_encoder_model.xml") (codes "weights.safetensors") (codes "model.bin")

-- `Backend.ModelSuffix`
unfoldable pub model_suffix : Backend → Text
model_suffix b = switch b (codes "-openvino-int8") (codes "-mlx") []

-- `Backend.VenvName`
unfoldable pub venv_name : Backend → Text
venv_name b = switch b (codes "venv-openvino") (codes "venv-mlx") (codes "venv")

-- `Backend.WheelDirName`
unfoldable pub wheel_dir_name : Backend → Text
wheel_dir_name b = switch b (codes "wheels-openvino") (codes "wheels-mlx") (codes "wheels")

-- `Backend.Modules`
unfoldable pub modules : Backend → List Text
modules b =
    (codes "fastapi" ∷ codes "uvicorn" ∷ codes "yaml" ∷ codes "numpy" ∷ [])
    ++ switch b (codes "openvino" ∷ codes "openvino_genai" ∷ []) (codes "mlx_whisper" ∷ [])
        (codes "faster_whisper" ∷ [])

-- `Backend.PackageSpecs`
unfoldable pub package_specs : Backend → List Text
package_specs b =
    (codes "fastapi>=0.115"
      ∷ codes "uvicorn[standard]>=0.30"
      ∷ codes "pyyaml>=6.0"
      ∷ codes "numpy>=1.26"
      ∷ codes "onnxruntime>=1.18"
      ∷ [])
    ++ switch b (codes "openvino-genai>=2025.0" ∷ []) (codes "mlx-whisper>=0.4" ∷ [])
        (codes "faster-whisper>=1.0.3" ∷ [])
