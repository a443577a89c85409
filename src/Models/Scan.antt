-- ===== src/Models/Scan.antt =====
-- `Stat` and `Scan` of client/internal/models/install.go, in the directory of the models, and what the
-- Models tab of client/internal/ui/models_tab.go makes of them.
use local_dictation.Prelude.{
  ℕ, ◌+◌, Bool, true, false, not, ◌&&◌, ◌||◌, List, [], ◌∷◌, ◌++◌, map, Option, none, some,
  if◌then◌else◌, length,
}
use local_dictation.Text.{Text, codes, beq, is_empty, trim_space}
use local_dictation.Settings.Backend.{Backend, normalise, weights}
use local_dictation.Update.Manifest.{Bytes}
use local_dictation.Models.Catalogue.{
  Model, is_detector, is_accurate, catalogue, for, weights_of, is_file, size_text,
}
use local_dictation.Models.Install.Folder.{Entry, file, folder, Disk, file_in}

-- `State`; its path is the model's name in the directory.
pub record State : Type 0 where
  pub model : Model
  pub installed : Bool
  pub bytes : ℕ

-- `directorySize`
unfoldable pub directory_size : List (Text × Bytes) → ℕ
directory_size [] = 0
directory_size ((n, content) ∷ files) = length content + directory_size files

abbrev pub absent : Model → State
absent m = record { model = m; installed = false; bytes = 0 }

-- In `Stat`, the file that a model is.
abbrev pub stat_file : Model → Option Entry → State
stat_file m (some (file content)) = record { model = m; installed = true; bytes = length content }
stat_file m _ = absent m

-- In `Stat`, the weights in the folder.
abbrev pub stat_weights : Model → List (Text × Bytes) → Option Bytes → State
stat_weights m files none = absent m
stat_weights m files (some content) = record {
  model = m;
  installed = true;
  bytes = directory_size files;
}

-- In `Stat`, the folder that a model is.
abbrev pub stat_folder : Model → Option Entry → State
stat_folder m (some (folder files)) = stat_weights m files (file_in (weights_of m) files)
stat_folder m _ = absent m

-- `Stat`
unfoldable pub stat : Model → Disk → State
stat m d = if is_file m then stat_file m (d m.name) else stat_folder m (d m.name)

-- `Scan`
abbrev pub scan : Disk → List State
scan d = map (λ m. stat m d) catalogue

-- In `refreshModels`, the models of the chosen backend.
abbrev pub is_named : Text → List Model → Bool
is_named name [] = false
is_named name (m ∷ models) = beq m.name name || is_named name models

-- In `refreshModels`, the rows of the chosen backend and those of the others, and whether an accurate
-- model of the backend is installed.
pub record Rows : Type 0 where
  pub mine : List State
  pub others : List State
  pub served : Bool

unfoldable pub sorted_rows : List Model → List State → Rows
sorted_rows needed [] = record { mine = []; others = []; served = false }
sorted_rows needed (s ∷ states) =
    let rest = sorted_rows needed states in
    if is_named s.model.name needed
    then record rest {
      mine = s ∷ rest.mine;
      served = s.installed && is_accurate s.model.role || rest.served;
    }
    else record rest { others = s ∷ rest.others }

-- `refreshModels`, from the backend and the directory
abbrev pub refresh_models : Backend → Disk → Rows
refresh_models backend d = sorted_rows (for backend) (scan d)

-- `urgentRow`
abbrev pub urgent_row : State → Bool → Bool
urgent_row s served = if is_detector s.model.role then not s.installed else not served

-- `modelDetail`
abbrev pub model_detail : State → Text
model_detail s =
    size_text (if s.installed then s.bytes else s.model.bytes) ++ codes " · " ++ s.model.summary

-- `buttonLabel`
abbrev pub button_label : State → Text
button_label s = if s.installed then codes "Re-download" else codes "Download"

-- In `modelsNeeded`, the loop.
unfoldable pub needed_among : Backend → List State → List State
needed_among backend [] = []
needed_among backend (s ∷ states) =
    let rest = needed_among backend states in
    if not s.installed
      && (beq (normalise s.model.backend) (normalise backend) && is_accurate s.model.role)
    then s ∷ rest
    else rest

-- `modelsNeeded`
abbrev pub models_needed : Backend → Disk → List State
models_needed backend d = needed_among backend (scan d)

-- `adoptModel`: the new path of the model where it is adopted; `readable` tells whether the file of
-- weights is in a directory, `join_path` is `filepath.Join`.
unfoldable pub adopt_model :
    (Text → Text → Bool) → (Text → Text → Text) → Backend → Text → Model → Text → Option Text
adopt_model readable join_path backend current m directory =
    if not (is_accurate m.role) || not (beq (normalise m.backend) (normalise backend))
    then none
    else if not (is_empty (trim_space current)) && readable (trim_space current) (weights backend)
    then none
    else some (join_path directory m.name)
