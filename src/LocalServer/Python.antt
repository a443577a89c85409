-- ===== src/LocalServer/Python.antt =====
-- client/internal/localserver/python.go. The processes that it runs and the file system are the record
-- `Host`; progress is left out.
use local_dictation.Prelude.{
  ℕ, Bool, not, List, [], ◌∷◌, ◌++◌, Option, none, some, if◌then◌else◌, ◌⊎◌, inl, inr,
}
use local_dictation.Prelude.Int.{ℤ, pos, leb_ℤ}
use local_dictation.Text.{Text, codes, is_empty, trim_space, split}
use local_dictation.Text.Decimal.{atoi}
use local_dictation.Settings.Config.{eqb_ℤ}
use local_dictation.Settings.Backend.{Backend, modules, package_specs}

-- `Version`
pub record Version : Type 0 where
  pub major : ℤ
  pub minor : ℤ

-- `MinimumPython`
abbrev pub minimum_python : Version
minimum_python = record { major = pos 3; minor = pos 11 }

-- `AtLeast`
unfoldable pub at_least : Version → Version → Bool
at_least v other =
    if not (eqb_ℤ v.major other.major)
    then not (leb_ℤ v.major other.major)
    else leb_ℤ other.minor v.minor

pub record Interpreter : Type 0 where
  pub path : Text
  pub version : Version

pub record Host : Type 0 where
  pub look_path : Text → Option Text
  pub version_output : Text → Option Text
  pub exists : Text → Bool
  pub is_directory : Text → Bool
  pub windows : Bool
  pub join_path : Text → Text → Text
  pub missing_modules : ℕ → Text → List Text → List Text ⊎ Text
  pub make_venv : Text → Text → Option Text
  pub pip_install : Text → List Text → Option Text

-- In `pythonVersion`, the two numbers.
abbrev pub version_of_numbers : Option ℤ → Option ℤ → Option Version
version_of_numbers (some a) (some b) = some (record { major = a; minor = b })
version_of_numbers _ _ = none

-- In `pythonVersion`, the parts of the output.
abbrev pub version_of_parts : List Text → Option Version
version_of_parts (a ∷ b ∷ []) = version_of_numbers (atoi a) (atoi b)
version_of_parts _ = none

-- In `pythonVersion`, the output.
abbrev pub version_of_output : Option Text → Option Version
version_of_output none = none
version_of_output (some output) = version_of_parts (split (trim_space output) b'.')

module _ (h : Host) where
  -- `pythonVersion`
  unfoldable pub python_version : Text → Option Version
  python_version path = version_of_output (h.version_output path)

  -- In `check` of `FindPython`, the version.
  abbrev pub checked_version : Text → Option Version → Option Interpreter
  checked_version path none = none
  checked_version path (some v) =
      if at_least v minimum_python then some (record { path = path; version = v }) else none

  -- In `check` of `FindPython`, the path.
  abbrev pub checked_path : Option Text → Option Interpreter
  checked_path none = none
  checked_path (some path) = checked_version path (python_version path)

  -- `check` of `FindPython`
  abbrev pub check_python : Text → Option Interpreter
  check_python name = checked_path (h.look_path name)

  -- In `FindPython`, the loop.
  unfoldable pub first_python : List Text → Option Interpreter
  first_python [] = none
  first_python (name ∷ names) = elim (check_python name) [
    | some i ↦ some i
    | none ↦ first_python names
  ]

  -- `FindPython`, without the error's text
  unfoldable pub find_python : Text → List Text → Option Interpreter
  find_python explicit candidates =
      if not (is_empty (trim_space explicit))
      then check_python explicit
      else first_python candidates

  -- `VenvPython`
  abbrev pub venv_python : Text → Text
  venv_python dir =
      if h.windows
      then h.join_path (h.join_path dir (codes "Scripts")) (codes "python.exe")
      else h.join_path (h.join_path dir (codes "bin")) (codes "python")

  -- In `EnsureRuntime`, the arguments of pip.
  abbrev pub pip_arguments : Text → Backend → List Text
  pip_arguments wheel_dir backend =
      (codes "-m"
        ∷ codes "pip"
        ∷ codes "install"
        ∷ codes "--disable-pip-version-check"
        ∷ codes "--no-input"
        ∷ [])
      ++ (if h.is_directory wheel_dir
          then codes "--no-index" ∷ codes "--find-links" ∷ wheel_dir ∷ []
          else [])
      ++ package_specs backend

  -- In `EnsureRuntime`, after the install.
  abbrev pub rechecked : Text → List Text ⊎ Text → Text ⊎ Text
  rechecked python (inr e) = inr e
  rechecked python (inl []) = inl python
  rechecked python (inl (m ∷ ms)) = inr (codes "still missing after install")

  -- In `EnsureRuntime`, the install.
  abbrev pub installed_modules : Text → Backend → Option Text → Text ⊎ Text
  installed_modules python backend (some e) = inr e
  installed_modules python backend none =
      rechecked python (h.missing_modules 1 python (modules backend))

  -- In `EnsureRuntime`, the modules that are missing.
  abbrev pub completed : Text → Text → Backend → List Text ⊎ Text → Text ⊎ Text
  completed python wheel_dir backend (inr e) = inr e
  completed python wheel_dir backend (inl []) = inl python
  completed python wheel_dir backend (inl (m ∷ ms)) =
      installed_modules python backend (h.pip_install python (pip_arguments wheel_dir backend))

  -- In `EnsureRuntime`, after the environment.
  abbrev pub environed : Text → Text → Backend → Option Text → Text ⊎ Text
  environed python wheel_dir backend (some e) = inr e
  environed python wheel_dir backend none =
      completed python wheel_dir backend (h.missing_modules 0 python (modules backend))

  -- `EnsureRuntime`
  unfoldable pub ensure_runtime : Interpreter → Text → Text → Backend → Text ⊎ Text
  ensure_runtime base venv_dir wheel_dir backend =
      let python = venv_python venv_dir in
      environed python wheel_dir backend
        (if h.exists python then none else h.make_venv base.path venv_dir)
