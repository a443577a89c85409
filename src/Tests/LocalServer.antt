-- ===== src/Tests/LocalServer.antt =====
-- A manager whose model changes between two sessions.
use local_dictation.Prelude.{false, List, [], ◌∷◌, none, inl, refl}
use local_dictation.Prelude.Int.{pos}
use local_dictation.Text.{codes, is_empty}
use local_dictation.Protocol.{korean}
use local_dictation.LocalServer.Manager.{ManagerSettings, resolved, Answers, ensure, new_manager}
use local_dictation.LocalServer.Current.Invariant.{Serves}
use local_dictation.LocalServer.Current.{Request, on_ensure, on_update, serve_all, ensure-Serves}

abbrev small : ManagerSettings
small = record {
  python_path = [];
  server_dir = [];
  model_path = codes "/models/small";
  draft_model_path = [];
  vad_model_path = [];
  state_dir = codes "/state";
  cpu_threads = pos 4;
  min_speech_ms = pos 0;
  backend = codes "cpu";
  korean_port = pos 8765;
  english_port = pos 8766;
}

abbrev answers : Answers
answers = record {
  resolution = resolved (codes "/state/venv/bin/python") (codes "/app/server");
  exited = λ id. false;
  launch = inl 7;
  ready = none;
}

abbrev requests : List Request
requests =
    on_ensure korean answers ∷ on_update (record small { model_path = codes "/models/large" }) ∷ []

ensure-Serves_example :
    Serves korean (ensure korean answers (serve_all requests (new_manager small)))
unfolding is_empty
ensure-Serves_example = ensure-Serves small requests korean answers (refl, (tt, tt)) refl
