-- ===== src/Window/Models.antt =====
-- What the Local tab says of a model's directory, `modelProblem` and `siblingModel` of
-- client/internal/ui/settings_tab.go. The paths and the file system are the record `Paths`.
use local_dictation.Prelude.{◌-◌, Bool, not, List, [], ◌∷◌, ◌++◌, if◌then◌else◌, take, length}
use local_dictation.Text.{Text, codes, is_empty, beq, trim_space}
use local_dictation.Settings.Backend.{Backend, backends, weights, label, model_suffix}
use local_dictation.Update.Github.{has_suffix}

pub record Paths : Type 0 where
  pub join_path : Text → Text → Text
  pub dir_of : Text → Text
  pub base_of : Text → Text
  pub exists : Text → Bool
  pub is_directory : Text → Bool

-- `strings.TrimSuffix(s, suffix)`
abbrev pub trim_suffix : Text → Text → Text
trim_suffix s suffix = if has_suffix s suffix then take (length s - length suffix) s else s

-- In `siblingModel`, the loop over the suffixes.
unfoldable pub without_suffixes : List Backend → Text → Text
without_suffixes [] base = base
without_suffixes (b ∷ bs) base =
    without_suffixes bs
      (if is_empty (model_suffix b) then base else trim_suffix base (model_suffix b))

module _ (p : Paths) where
  -- In `siblingModel`, the candidate.
  abbrev pub candidate_of : Backend → Text → Text
  candidate_of b path =
      p.join_path (p.dir_of path) (without_suffixes backends (p.base_of path) ++ model_suffix b)

  -- `siblingModel`
  unfoldable pub sibling_model : Backend → Text → Text
  sibling_model b path =
      let candidate = candidate_of b path in
      if beq candidate path
      then []
      else if not (p.exists (p.join_path candidate (weights b)))
      then []
      else p.base_of candidate

  -- In `modelProblem`, a directory that is there without the weights.
  abbrev pub wrong_conversion : Backend → Text → Text
  wrong_conversion b sibling =
      if is_empty sibling
      then codes "No "
        ++ weights b
        ++ codes " here, so "
        ++ label b
        ++ codes " cannot read this directory. See docs/model-setup.md."
      else codes "No "
        ++ weights b
        ++ codes " here — "
        ++ label b
        ++ codes " wants "
        ++ sibling
        ++ codes " instead."

  -- `modelProblem`
  unfoldable pub model_problem : Backend → Text → Text
  model_problem b path =
      let trimmed = trim_space path in
      if is_empty trimmed
      then []
      else if not (p.is_directory trimmed)
      then []
      else if p.exists (p.join_path trimmed (weights b))
      then []
      else wrong_conversion b (sibling_model b trimmed)
