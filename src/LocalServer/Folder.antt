-- ===== src/LocalServer/Folder.antt =====
-- `ResolveServerDir` of client/internal/localserver/manager.go, and `DefaultPythonCandidates` of
-- client/internal/config/config.go. What the operating system answers is the record `Place`.
use local_dictation.Prelude.{
  Bool, List, [], ◌∷◌, ◌++◌, map, Option, none, some, if◌then◌else◌, ◌⊎◌, inl, inr,
}
use local_dictation.Text.{Text, codes, is_empty}

pub record Place : Type 0 where
  pub executable : Option Text
  pub eval_symlinks : Text → Option Text
  pub working : Option Text
  pub absolute : Text → Option Text
  pub exists : Text → Bool
  pub join_path : Text → Text → Text
  pub dir_of : Text → Text

-- `DefaultPythonCandidates`, for Windows or not
abbrev pub default_python_candidates : Bool → List Text
default_python_candidates windows =
    if windows
    then codes "python3.12.exe" ∷ codes "python3.11.exe" ∷ codes "python.exe" ∷ codes "py.exe" ∷ []
    else codes "python3.13" ∷ codes "python3.12" ∷ codes "python3.11" ∷ codes "python3" ∷ []

module _ (w : Place) where
  -- In `ResolveServerDir`, the places beside the executable's folder.
  abbrev pub beside_folder : Text → List Text
  beside_folder dir =
      let up = w.join_path dir (codes "..") in
      w.join_path dir (codes "server")
      ∷ w.join_path (w.join_path up (codes "Resources")) (codes "server")
      ∷ w.join_path up (codes "server")
      ∷ w.join_path (w.join_path up (codes "..")) (codes "server")
      ∷ []

  -- In `ResolveServerDir`, the executable with its links resolved, where they can be.
  abbrev pub real_path : Text → Option Text → Text
  real_path executable none = executable
  real_path executable (some resolved) = resolved

  -- In `ResolveServerDir`, from `os.Executable` on.
  abbrev pub beside_executable : Option Text → List Text
  beside_executable none = []
  beside_executable (some executable) =
      beside_folder (w.dir_of (real_path executable (w.eval_symlinks executable)))

  -- In `ResolveServerDir`, the working directory and the four above it.
  abbrev pub above_working : Option Text → List Text
  above_working none = []
  above_working (some working) =
      let up1 = w.join_path working (codes "..") in
      let up2 = w.join_path up1 (codes "..") in
      let up3 = w.join_path up2 (codes "..") in
      let up4 = w.join_path up3 (codes "..") in
      map (λ (dir : Text). w.join_path dir (codes "server")) (working ∷ up1 ∷ up2 ∷ up3 ∷ up4 ∷ [])

  -- In `ResolveServerDir`, all of `candidates`.
  abbrev pub server_candidates : Text → List Text
  server_candidates configured =
      (if is_empty configured then [] else configured ∷ [])
      ++ beside_executable w.executable
      ++ above_working w.working

  -- In `ResolveServerDir`, a candidate that has an absolute path: the server, or what comes of the rest.
  abbrev pub tried_place : Text → Text ⊎ List Text → Text ⊎ List Text
  tried_place absolute rest =
      if w.exists (w.join_path (w.join_path absolute (codes "app")) (codes "main.py"))
      then inl absolute
      else elim rest [ inl found ↦ inl found | inr tried ↦ inr (absolute ∷ tried) ]

  -- In `ResolveServerDir`, the loop; where it finds none, the places that it tried.
  unfoldable pub first_server : List Text → Text ⊎ List Text
  first_server [] = inr []
  first_server (c ∷ cs) =
      let rest = first_server cs in
      elim (w.absolute c) [ none ↦ rest | some absolute ↦ tried_place absolute rest ]

  -- `ResolveServerDir`; its error has the places.
  unfoldable pub resolve_server_dir : Text → Text ⊎ List Text
  resolve_server_dir configured = first_server (server_candidates configured)
