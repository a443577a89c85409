-- ===== src/LocalServer/Starting.antt =====
-- `Start`, `writeServerConfig` and `Stop` of client/internal/localserver/server.go. `strconv.Quote` and
-- what the operating system answers are the record `Machine`; the start timeout is not in the options.
use local_dictation.Prelude.{
  ℕ, not, ◌&&◌, List, [], ◌∷◌, ◌++◌, Option, none, some, if◌then◌else◌, ◌⊎◌, inl, inr,
}
use local_dictation.Prelude.Int.{ℤ, pos, leb_ℤ}
use local_dictation.Text.{Text, codes, is_empty}
use local_dictation.Text.Decimal.{decimal}
use local_dictation.Protocol.{korean}
use local_dictation.Settings.Config.{eqb_ℤ}
use local_dictation.Settings.Backend.{engine, device}
use local_dictation.LocalServer.Manager.{Options}
use local_dictation.LocalServer.Detector.{Files, resolve_detector}

pub record Machine : Type 0 where
  pub files : Files
  pub quote : Text → Text
  pub free_port : ℤ ⊎ Text
  pub make_directory : Option Text
  pub write_config : Option Text
  pub open_log : Option Text
  pub launch : ℕ ⊎ Text

-- `DefaultMinSpeechMs`
abbrev pub default_min_speech_ms : ℤ
default_min_speech_ms = pos 120

-- `withDefaults`, for the language
abbrev pub with_defaults : Options → Options
with_defaults o = if is_empty o.language then record o { language = korean } else o

pub data Refusal : Type 0 where
  no_server_dir no_model : Refusal
  no_server_in : Text → Refusal
  model_unreadable draft_unreadable : Text → Refusal
  no_port no_directory no_config no_log not_launched : Text → Refusal

-- `Server`, with the text of its config and the arguments of the process; the process by its number.
pub record Launched : Type 0 where
  pub process : ℕ
  pub options : Options
  pub port : ℤ
  pub config : Text
  pub arguments : List Text
  pub directory : Text
  pub log_path : Text

module _ (w : Machine) where
  -- In `writeServerConfig`, the gate.
  abbrev pub min_speech_of : ℤ → ℤ
  min_speech_of n = if leb_ℤ n (pos 0) then default_min_speech_ms else n

  -- In `writeServerConfig`, the lines `server` and `model`.
  abbrev pub model_lines : Options → ℤ → Text
  model_lines o port =
      codes "# Generated by Local Dictation. Edits are overwritten on every start.\n"
      ++ codes "server:\n  host: \"127.0.0.1\"\n  port: "
      ++ decimal port
      ++ codes "\n  instance_name: "
      ++ w.quote (codes "local-dictation-" ++ o.language)
      ++ codes "\nmodel:\n  path: "
      ++ w.quote o.model_path
      ++ codes "\n  device: "
      ++ w.quote (device o.backend)
      ++ codes "\n  compute_type: \"int8\"\n  language: "
      ++ w.quote o.language
      ++ codes "\n"
      ++ (if is_empty o.draft_model_path
          then []
          else codes "  draft_path: " ++ w.quote o.draft_model_path ++ codes "\n")
      ++ codes "  beam_size: 1\n  cpu_threads: "
      ++ decimal o.cpu_threads
      ++ codes "\n  num_workers: 1\n"

  -- In `writeServerConfig`, the lines `streaming`.
  abbrev pub streaming_lines : Options → Text → Text
  streaming_lines o vad_path =
      codes "streaming:\n  chunk_ms: 600\n  silence_ms: 600\n  min_speech_ms: "
      ++ decimal (min_speech_of o.min_speech_ms)
      ++ codes "\n  vad: "
      ++ w.quote (if is_empty vad_path then codes "energy" else codes "silero")
      ++ codes "\n"
      ++ (if is_empty vad_path
          then codes "  silero_model_path: null\n"
          else codes "  silero_model_path: " ++ w.quote vad_path ++ codes "\n")

  -- `writeServerConfig`, what it writes
  unfoldable pub config_text : Options → ℤ → Text
  config_text o port =
      model_lines o port
      ++ streaming_lines o (resolve_detector w.files o.vad_model_path o.model_path)
      ++ codes "limits:\n  max_sessions: 1\n"
      ++ codes "security:\n  require_client_certificate: false\n"
      ++ codes
          "logging:\n  level: \"INFO\"\n  json: true\n  store_audio: false\n  store_transcript: false\n"

  -- In `Start`, a file in the state directory.
  abbrev pub state_file : Options → Text → Text
  state_file o extension =
      w.files.join_path o.state_dir (codes "server-" ++ o.language ++ extension)

  -- In `Start`, from the process on.
  abbrev pub launched_on : Options → ℤ → ℕ ⊎ Text → Launched ⊎ Refusal
  launched_on o port (inr e) = inr (not_launched e)
  launched_on o port (inl process) = inl (record {
    process = process;
    options = o;
    port = port;
    config = config_text o port;
    arguments =
        codes "-m"
        ∷ codes "app.main"
        ∷ codes "--config"
        ∷ state_file o (codes ".yaml")
        ∷ codes "--backend"
        ∷ engine o.backend
        ∷ [];
    directory = o.server_dir;
    log_path = state_file o (codes ".log");
  })

  -- In `Start`, from the state directory on.
  abbrev pub set_up : Options → ℤ → Option Text → Option Text → Option Text → Launched ⊎ Refusal
  set_up o port (some e) config log = inr (no_directory e)
  set_up o port none (some e) log = inr (no_config e)
  set_up o port none none (some e) = inr (no_log e)
  set_up o port none none none = launched_on o port w.launch

  -- In `Start`, the port.
  abbrev pub on_port : Options → ℤ ⊎ Text → Launched ⊎ Refusal
  on_port o (inr e) = inr (no_port e)
  on_port o (inl port) = set_up o port w.make_directory w.write_config w.open_log

  -- `Start`, with defaults
  abbrev pub start_with : Options → Launched ⊎ Refusal
  start_with o =
      if is_empty o.server_dir
      then inr no_server_dir
      else if not (
          w.files.exists
            (w.files.join_path (w.files.join_path o.server_dir (codes "app")) (codes "main.py")))
      then inr (no_server_in o.server_dir)
      else if is_empty o.model_path
      then inr no_model
      else if not (w.files.exists o.model_path)
      then inr (model_unreadable o.model_path)
      else if not (is_empty o.draft_model_path) && not (w.files.exists o.draft_model_path)
      then inr (draft_unreadable o.draft_model_path)
      else on_port o (if eqb_ℤ o.port (pos 0) then w.free_port else inl o.port)

  -- `Start`
  unfoldable pub start_server : Options → Launched ⊎ Refusal
  start_server o = start_with (with_defaults o)
