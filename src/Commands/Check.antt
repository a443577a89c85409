-- ===== src/Commands/Check.antt =====
-- `runCheck` and `checkLocalServer` of client/cmd/local-dictation/main.go. What the system answers is the
-- record `Machine`; a printed line is a `Line`, with the prefix, the label and the detail.
pub mod Ability
use local_dictation.Prelude.{
  ℕ, zero, suc, ◌+◌, Bool, true, false, not, ◌&&◌, ◌||◌, ◌==◌, List, [], ◌∷◌, ◌++◌, Option, none,
  some, if◌then◌else◌, ◌⊎◌, inl, inr,
}
use local_dictation.Prelude.Int.{pos}
use local_dictation.Text.{Text, codes, is_empty, beq}
use local_dictation.Text.Decimal.{decimal}
use local_dictation.Settings.Backend.{Backend, normalise, supported_on, label, engine, weights}
use local_dictation.Settings.Config.{Config, Local, hotkey_text, mode_local}
use local_dictation.Settings.Validate.{Problem, validate}
use local_dictation.LocalServer.Detector.{Files, resolve_detector, detector_name}
use local_dictation.LocalServer.Python.{Host, Interpreter, find_python}
use local_dictation.LocalServer.Folder.{Place, resolve_server_dir, default_python_candidates}

pub data Mark : Type 0 where
  ok fail warned : Mark

-- What stands on a line: words, the errors of `Validate`, the places that were tried, or the error of
-- `FindPython`.
pub data Detail : Type 0 where
  words : Text → Detail
  unsettled : List Problem → Detail
  not_in : List Text → Detail
  no_python : Detail

pub record Line : Type 0 where
  pub mark : Mark
  pub label : Text
  pub detail : Detail

-- The counters of `runCheck` and what it has printed.
pub record Checked : Type 0 where
  pub problems : ℕ
  pub warnings : ℕ
  pub lines : List Line

pub record Machine : Type 0 where
  pub goos : Text
  pub available : Bool
  pub unavailable : Text
  pub new_capture : Option Text
  pub devices : ℕ ⊎ Text
  pub host : Host
  pub files : Files
  pub place : Place

-- `report` of `runCheck`
abbrev pub report_line : Text → Bool → Detail → Checked → Checked
report_line label true detail c = record c {
  lines = c.lines ++ record { mark = ok; label = label; detail = detail } ∷ [];
}
report_line label false detail c = record c {
  problems = suc c.problems;
  lines = c.lines ++ record { mark = fail; label = label; detail = detail } ∷ [];
}

-- `warn` of `runCheck`
abbrev pub warn_line : Text → Detail → Checked → Checked
warn_line label detail c = record c {
  warnings = suc c.warnings;
  lines = c.lines ++ record { mark = warned; label = label; detail = detail } ∷ [];
}

-- In `runCheck`, the settings.
abbrev pub check_settings : Config → List Problem → Checked → Checked
check_settings s (p ∷ ps) c = report_line (codes "settings") false (unsettled (p ∷ ps)) c
check_settings s [] c =
    report_line (codes "settings") true
      (words (
        codes "mode="
        ++ s.mode
        ++ codes " language="
        ++ s.language
        ++ codes " shortcut="
        ++ hotkey_text s.hotkey))
      c

-- In `runCheck`, the devices.
abbrev pub check_devices : ℕ ⊎ Text → Checked → Checked
check_devices (inr e) c = report_line (codes "microphone") false (words e) c
check_devices (inl n) c =
    report_line (codes "microphone") true (words (decimal (pos n) ++ codes " device(s) available"))
      c

-- In `runCheck`, the microphone.
abbrev pub check_capture : ℕ ⊎ Text → Option Text → Checked → Checked
check_capture devices (some e) c = report_line (codes "microphone") false (words e) c
check_capture devices none c = check_devices devices c

-- In `checkLocalServer`, the interpreter that was found.
abbrev pub python_line : Interpreter → Checked → Checked
python_line i c =
    report_line (codes "python") true
      (words (
        i.path
        ++ codes " ("
        ++ decimal i.version.major
        ++ codes "."
        ++ decimal i.version.minor
        ++ codes ")"))
      c

-- In `runCheck`, the last line and the exit code.
unfoldable pub concluded : Checked → ℕ × List Line × Text
concluded c =
    if c.problems == 0 && c.warnings == 0
    then (0, c.lines, codes "Everything needed to dictate is in place.")
    else if c.problems == 0
    then (
      0,
      c.lines,
      codes "Dictation will work. "
          ++ decimal (pos c.warnings)
          ++ codes " thing(s) above will make it worse than it needs to be.",
    )
    else (
      1,
      c.lines,
      decimal (pos c.problems) ++ codes " problem(s) need attention before dictation will work.",
    )

module _ (w : Machine) where
  -- In `runCheck`, the text adapter.
  abbrev pub check_cursor : Checked → Checked
  check_cursor c =
      report_line (codes "text at the cursor") w.available
        (words (if w.available then codes "permitted" else w.unavailable)) c

  -- In `checkLocalServer`, the draft model.
  abbrev pub check_draft : Local → Checked → Checked
  check_draft l c =
      let draft = l.draft_model_path in
      let found = w.host.exists (w.host.join_path draft (weights (normalise l.backend))) in
      if is_empty draft
      then c
      else report_line (codes "draft model") found
          (words (
            if found
            then draft
            else draft
              ++ codes " has no "
              ++ weights (normalise l.backend)
              ++ codes "; see docs/latency.md"))
          c

  -- In `checkLocalServer`, the detector.
  abbrev pub check_detector : Text → Checked → Checked
  check_detector detector c =
      if is_empty detector
      then warn_line (codes "voice detector")
          (words (
            codes "no "
            ++ detector_name
            ++ codes " configured or beside the model. Without it the server "
            ++ codes "compares loudness instead, which reads a breath as speech, and "
            ++ codes "the decoder answers that with text nobody said — usually "
            ++ codes "\"감사합니다\". Install it from Settings › Models."))
          c
      else report_line (codes "voice detector") true (words detector) c

  -- In `checkLocalServer`, the model.
  abbrev pub check_model : Local → Checked → Checked
  check_model l c =
      let model = l.model_path in
      if is_empty model
      then report_line (codes "model") false
          (words (codes "no model directory configured; see docs/model-setup.md")) c
      else if not (w.host.is_directory model)
      then report_line (codes "model") false
          (words (model ++ codes " is not readable; see docs/model-setup.md")) c
      else if not (w.host.exists (w.host.join_path model (weights (normalise l.backend))))
      then report_line (codes "model") false
          (words (
            model
            ++ codes " has no "
            ++ weights (normalise l.backend)
            ++ codes ", which "
            ++ label (normalise l.backend)
            ++ codes " reads; see docs/model-setup.md"))
          c
      else report_line (codes "model") true (words model) c

  -- In `checkLocalServer`, from the interpreter on.
  abbrev pub check_weights : Local → Option Interpreter → Checked → Checked
  check_weights l none c = report_line (codes "python") false no_python c
  check_weights l (some i) c = check_draft l (
      check_detector (resolve_detector w.files l.vad_model_path l.model_path)
        (check_model l (python_line i c)))

  -- In `checkLocalServer`, the decoder.
  abbrev pub check_decoder : Backend → Checked → Checked
  check_decoder b c =
      report_line (codes "decoder") (supported_on b w.goos)
        (words (
          if supported_on b w.goos
          then label b ++ codes " (" ++ engine b ++ codes ", reads " ++ weights b ++ codes ")"
          else label b ++ codes " needs hardware this operating system does not have"))
        c

  -- In `checkLocalServer`, from the server's folder on.
  abbrev pub check_folder : Local → Text ⊎ List Text → Checked → Checked
  check_folder l (inr tried) c = report_line (codes "server files") false (not_in tried) c
  check_folder l (inl dir) c =
      check_weights l (find_python w.host l.python_path (default_python_candidates w.host.windows))
        (check_decoder (normalise l.backend)
          (report_line (codes "server files") true (words dir) c))

  -- `checkLocalServer`
  unfoldable pub check_local_server : Local → Checked → Checked
  check_local_server l = check_folder l (resolve_server_dir w.place l.server_dir)

  -- In `runCheck`, the server.
  abbrev pub check_server : Config → Checked → Checked
  check_server s c =
      if beq s.mode mode_local
      then check_local_server s.local c
      else report_line (codes "server mode") true
          (words (
            codes "remote: "
            ++ s.remote.host
            ++ codes " (ko "
            ++ decimal s.remote.korean_port
            ++ codes ", en "
            ++ decimal s.remote.english_port
            ++ codes ")"))
          c

  -- In `runCheck`, all of the lines.
  unfoldable pub checked_lines : Config → Checked
  checked_lines s = check_server s (
      check_capture w.devices w.new_capture (
        check_cursor (
          check_settings s (validate w.goos s)
            (record { problems = 0; warnings = 0; lines = [] }))))

  -- `runCheck`: the exit code, the lines, and the last one
  unfoldable pub run_check : Config → ℕ × List Line × Text
  run_check s = concluded (checked_lines s)
