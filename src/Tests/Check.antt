-- ===== src/Tests/Check.antt =====
-- The check on a machine where all is in place but the weights of the model.
use local_dictation.Prelude.{true, false, [], ◌++◌, none, some, ◌≡◌, ◌↔◌, inl}
use local_dictation.Text.{Text, codes, beq}
use local_dictation.Settings.Config.{Config, default}
use local_dictation.LocalServer.Python.{Host}
use local_dictation.Commands.Check.{Machine, run_check}
use local_dictation.Commands.Check.Ability.{Able, run_check_iff}

abbrev joined : Text → Text → Text
joined a b = a ++ codes "/" ++ b

abbrev host : Host
host = record {
  look_path = λ name. some (joined (codes "/usr/bin") name);
  version_output = λ path. some (codes "3.12");
  exists = λ path. false;
  is_directory = λ path. beq path (codes "/models/turbo");
  windows = false;
  join_path = joined;
  missing_modules = λ n path modules. inl [];
  make_venv = λ base dir. none;
  pip_install = λ python arguments. none;
}

abbrev machine : Machine
machine = record {
  goos = codes "linux";
  available = true;
  unavailable = [];
  new_capture = none;
  devices = inl 2;
  host = host;
  files = record {
    join_path = joined;
    dir_of = λ path. path;
    exists = λ path. false;
    is_file = λ path. false;
  };
  place = record {
    executable = none;
    eval_symlinks = λ path. none;
    working = some (codes "/src");
    absolute = λ path. some path;
    exists = λ path. true;
    join_path = joined;
    dir_of = λ path. path;
  };
}

abbrev settings : Config
settings = default (codes "/models/turbo")

run_check_iff_example : ((run_check machine settings).0 ≡ 0) ↔ Able machine settings
run_check_iff_example = run_check_iff machine settings
