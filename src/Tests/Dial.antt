-- ===== src/Tests/Dial.antt =====
-- A dialer with the default settings, whose server is started by the first call.
use local_dictation.Prelude.{false, none, inl, inr}
use local_dictation.Prelude.Int.{pos}
use local_dictation.Text.{codes}
use local_dictation.Settings.Config.{Config, default}
use local_dictation.LocalServer.Manager.{resolved}
use local_dictation.Dial.{Outside}

abbrev fresh : Config
fresh = default (codes "/models/large-v3-turbo")

abbrev outside : Outside
outside = record {
  ensured = record {
    resolution = resolved (codes "/usr/bin/python3") (codes "/opt/server");
    exited = λ id. false;
    launch = inl 7;
    ready = none;
  };
  port = λ id. pos 40123;
  certificates = record {
    read_file = λ path. inr (codes "no file");
    pool_of = λ pem. none;
    load_pair = λ certificate key. inr (codes "no file");
  };
}
