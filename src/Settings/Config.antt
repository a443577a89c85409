-- ===== src/Settings/Config.antt =====
-- `Config` of client/internal/config/config.go. What the operating system and `encoding/json` answer is
-- an argument.
use local_dictation.Prelude.{
  Bool, false, ◌&&◌, ◌||◌, List, [], ◌∷◌, ◌++◌, Option, none, some, if◌then◌else◌, ◌⊎◌, inl, inr,
}
use local_dictation.Prelude.Int.{ℤ, pos, leb_ℤ}
use local_dictation.Text.{Text, codes, is_empty, beq}
use local_dictation.Text.Decimal.{decimal}
use local_dictation.Protocol.{Language, korean, english}
use local_dictation.Settings.Backend.{Backend}
use local_dictation.Settings.Gain.{Gain, is_zero}

abbrev pub current_version : ℤ
current_version = pos 1

-- `Mode`, a string type.
abbrev pub Mode : Type 0
Mode = Text

abbrev pub mode_local : Mode
mode_local = codes "local"

abbrev pub mode_remote : Mode
mode_remote = codes "remote"

-- `Mode.Valid`
unfoldable pub is_mode : Mode → Bool
is_mode m = beq m mode_local || beq m mode_remote

pub record Tls : Type 0 where
  pub enabled : Bool
  pub ca_certificate : Text
  pub client_certificate : Text
  pub client_key : Text
  pub insecure_skip_verify : Bool

pub record Remote : Type 0 where
  pub host : Text
  pub korean_port : ℤ
  pub english_port : ℤ
  pub tls : Tls

pub record Local : Type 0 where
  pub python_path : Text
  pub server_dir : Text
  pub model_path : Text
  pub draft_model_path : Text
  pub vad_model_path : Text
  pub korean_port : ℤ
  pub english_port : ℤ
  pub start_both_languages : Bool
  pub cpu_threads : ℤ
  pub min_speech_ms : ℤ
  pub backend : Backend

pub record Audio : Type 0 where
  pub device_id : Text
  pub device_name : Text
  pub gain : Gain

-- `Audio.InputGain`
unfoldable pub input_gain : Audio → Gain
input_gain a = if is_zero a.gain then record { mantissa = pos 1; scale = 0 } else a.gain

pub record Hotkey : Type 0 where
  pub modifiers : List Text
  pub key : Text

-- `strings.Join(words, sep)`
abbrev pub join : Text → List Text → Text
join sep [] = []
join sep (w ∷ []) = w
join sep (w ∷ v ∷ words) = w ++ sep ++ join sep (v ∷ words)

-- `Hotkey.String`
unfoldable pub hotkey_text : Hotkey → Text
hotkey_text h = if is_empty h.key then [] else join (codes " + ") (h.modifiers ++ h.key ∷ [])

pub record Input : Type 0 where
  pub live_preview : Bool

pub record Updates : Type 0 where
  pub manifest_url : Text
  pub public_key : Text
  pub github_repo : Text
  pub check_on_start : Bool

pub record Config : Type 0 where
  pub version : ℤ
  pub mode : Mode
  pub language : Language
  pub remote : Remote
  pub local : Local
  pub audio : Audio
  pub hotkey : Hotkey
  pub input : Input
  pub update : Updates

-- `Default`, given what `DefaultModelPath` answers.
abbrev pub default : Text → Config
default model_path = record {
  version = current_version;
  mode = mode_local;
  language = korean;
  remote = record {
    host = [];
    korean_port = pos 8765;
    english_port = pos 8766;
    tls = record {
      enabled = false;
      ca_certificate = [];
      client_certificate = [];
      client_key = [];
      insecure_skip_verify = false;
    };
  };
  local = record {
    python_path = [];
    server_dir = [];
    model_path = model_path;
    draft_model_path = [];
    vad_model_path = [];
    korean_port = pos 0;
    english_port = pos 0;
    start_both_languages = false;
    cpu_threads = pos 0;
    min_speech_ms = pos 0;
    backend = [];
  };
  audio = record {
    device_id = [];
    device_name = [];
    gain = record { mantissa = pos 0; scale = 0 };
  };
  hotkey = record { modifiers = codes "Ctrl" ∷ codes "Shift" ∷ []; key = codes "M" };
  input = record { live_preview = false };
  update = record { manifest_url = []; public_key = []; github_repo = []; check_on_start = false };
}

-- `a == b` on integers
abbrev pub eqb_ℤ : ℤ → ℤ → Bool
eqb_ℤ a b = leb_ℤ a b && leb_ℤ b a

-- `Config.migrate`
unfoldable pub migrate : Config → Config
migrate c =
    let c1 = if eqb_ℤ c.version (pos 0) then record c { version = current_version } else c in
    let c2 = if is_empty c1.mode then record c1 { mode = mode_local } else c1 in
    let c3 = if is_empty c2.language then record c2 { language = korean } else c2 in
    if is_empty c3.hotkey.key then record c3 { hotkey = (default []).hotkey } else c3

-- What reading the file answers.
pub data File : Type 0 where
  missing : File
  unreadable : Text → File
  contents : Text → File

-- The configuration and whether it comes with an error.
pub record Loaded : Type 0 where
  pub config : Config
  pub err : Option Text

-- `LoadFrom`; `unmarshal` fills a configuration from a document, or says what is wrong with it.
unfoldable pub load_from : Text → (Text → Config → Config ⊎ Text) → File → Loaded
load_from model_path unmarshal missing = record { config = default model_path; err = none }
load_from model_path unmarshal (unreadable e) = record { config = default model_path; err = some e }
load_from model_path unmarshal (contents raw) = elim (unmarshal raw (default model_path)) [
  | inl c ↦ record { config = migrate c; err = none }
  | inr e ↦ record { config = default model_path; err = some e }
]

-- `PortFor`
unfoldable pub port_for : Language → Config → ℤ
port_for language c =
    if beq c.mode mode_local
    then (if beq language english then c.local.english_port else c.local.korean_port)
    else (if beq language english then c.remote.english_port else c.remote.korean_port)

abbrev pub address : Text → Text → ℤ → Text → Text
address scheme host port path = scheme ++ codes "://" ++ host ++ codes ":" ++ decimal port ++ path

-- `EndpointFor`, which does not look at the language.
unfoldable pub endpoint_for : ℤ → Config → Text
endpoint_for port c =
    if beq c.mode mode_local
    then address (codes "ws") (codes "127.0.0.1") port (codes "/v1/dictation")
    else address (if c.remote.tls.enabled then codes "wss" else codes "ws") c.remote.host port
        (codes "/v1/dictation")

-- `HealthURLFor`
unfoldable pub health_url_for : ℤ → Config → Text
health_url_for port c =
    if beq c.mode mode_local
    then address (codes "http") (codes "127.0.0.1") port (codes "/health/ready")
    else address (if c.remote.tls.enabled then codes "https" else codes "http") c.remote.host port
        (codes "/health/ready")
