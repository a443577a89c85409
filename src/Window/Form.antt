-- ===== src/Window/Form.antt =====
-- The fields of client/internal/ui/settings_tab.go: what the `build…Section` functions fill in, and what
-- `collect` reads. A field of the toolkit gives back what it was set to.
use local_dictation.Prelude.{Bool, false, ◌||◌, List, [], ◌∷◌, Option, none, some, if◌then◌else◌}
use local_dictation.Prelude.Int.{ℤ, pos}
use local_dictation.Text.{Text, codes, is_empty, beq}
use local_dictation.Text.Decimal.{decimal, atoi}
use local_dictation.Hotkey.Keys.{is_key}
use local_dictation.Settings.Config.{Config, Mode, mode_local, mode_remote, input_gain, eqb_ℤ}
use local_dictation.Settings.Backend.{
  Backend, backends, backend_cpu, normalise, label, supported_on,
}
use local_dictation.Settings.Gain.{Gain}
use local_dictation.Audio.Gain.{clamp_gain}

-- `portText`, and `threadsText`, which is the same
abbrev pub port_text : ℤ → Text
port_text port = if eqb_ℤ port (pos 0) then [] else decimal port

abbrev pub value_or_zero : Option ℤ → ℤ
value_or_zero none = pos 0
value_or_zero (some n) = n

-- `parsePort`
abbrev pub parse_port : Text → ℤ
parse_port text = value_or_zero (atoi text)

-- `modeLabel`
abbrev pub mode_label : Mode → Text
mode_label mode = if beq mode mode_remote then codes "Remote servers" else codes "This computer"

-- `modeFromLabel`
abbrev pub mode_from_label : Text → Mode
mode_from_label l = if beq l (codes "Remote servers") then mode_remote else mode_local

-- In `backendFor`, the loop.
unfoldable pub backend_among : Text → List Backend → Backend
backend_among l [] = backend_cpu
backend_among l (b ∷ bs) = let rest = backend_among l bs in if beq (label b) l then b else rest

-- `backendFor`
abbrev pub backend_for : Text → Backend
backend_for l = backend_among l backends

-- In `backendLabels`, the loop.
unfoldable pub supported_labels : Text → List Backend → List Text
supported_labels goos [] = []
supported_labels goos (b ∷ bs) =
    let rest = supported_labels goos bs in if supported_on b goos then label b ∷ rest else rest

-- `backendLabels`
abbrev pub backend_labels : Text → List Text
backend_labels goos = supported_labels goos backends

-- `Device` of client/internal/audio/audio.go
pub record Device : Type 0 where
  pub id : Text
  pub name : Text

-- `SystemDefault`
abbrev pub system_default : Device
system_default = record { id = []; name = codes "Default system microphone" }

-- In `refreshDevices`, the name of the selected device, the last one of its identifier.
unfoldable pub name_of_id : Text → List Device → Text → Text
name_of_id id [] so_far = so_far
name_of_id id (d ∷ ds) so_far = name_of_id id ds (if beq d.id id then d.name else so_far)

abbrev pub first_name : List Device → Text
first_name [] = []
first_name (d ∷ ds) = d.name

-- `refreshDevices`, the name that is selected
unfoldable pub refresh_devices : Text → List Device → Text
refresh_devices id devices =
    let name = name_of_id id devices [] in if is_empty name then first_name devices else name

-- `selectedDevice`
unfoldable pub selected_device : Text → List Device → Device
selected_device name [] = system_default
selected_device name (d ∷ ds) =
    let rest = selected_device name ds in if beq d.name name then d else rest

abbrev pub is_among : Text → List Text → Bool
is_among t [] = false
is_among t (u ∷ us) = beq u t || is_among t us

-- In `buildShortcutSection`, the boxes of the modifiers that the platform offers, each with whether it
-- is checked.
unfoldable pub modifier_checks : List Text → List Text → List (Text × Bool)
modifier_checks chosen [] = []
modifier_checks chosen (name ∷ names) = (name, is_among name chosen) ∷ modifier_checks chosen names

-- In `buildShortcutSection`, the key: `Select.SetSelected` of the toolkit selects one of the options, which
-- are `AvailableKeys`, and leaves any other value out.
abbrev pub selected_key : Text → Text
selected_key key = if is_key key then key else []

-- In `shortcutFromForm`, the loop.
unfoldable pub checked_names : List (Text × Bool) → List Text
checked_names [] = []
checked_names ((name, checked) ∷ checks) =
    let rest = checked_names checks in if checked then name ∷ rest else rest

pub record Form : Type 0 where
  pub mode : Text
  pub host : Text
  pub korean_port : Text
  pub english_port : Text
  pub use_tls : Bool
  pub ca_cert : Text
  pub client_cert : Text
  pub client_key : Text
  pub model_path : Text
  pub draft_path : Text
  pub vad_path : Text
  pub python_path : Text
  pub cpu_threads : Text
  pub min_speech : Text
  pub backend : Text
  pub local_korean_port : Text
  pub local_english_port : Text
  pub microphone : Text
  pub devices : List Device
  pub modifiers : List (Text × Bool)
  pub shortcut_key : Text
  pub live_preview : Bool
  pub gain : Gain

-- The `build…Section` functions, given the modifiers of the platform and the devices; `slider` is what
-- the slider makes of a value.
unfoldable pub filled_form : List Text → List Device → (Gain → Gain) → Config → Form
filled_form available devices slider c = record {
  mode = mode_label c.mode;
  host = c.remote.host;
  korean_port = port_text c.remote.korean_port;
  english_port = port_text c.remote.english_port;
  use_tls = c.remote.tls.enabled;
  ca_cert = c.remote.tls.ca_certificate;
  client_cert = c.remote.tls.client_certificate;
  client_key = c.remote.tls.client_key;
  model_path = c.local.model_path;
  draft_path = c.local.draft_model_path;
  vad_path = c.local.vad_model_path;
  python_path = c.local.python_path;
  cpu_threads = port_text c.local.cpu_threads;
  min_speech = port_text c.local.min_speech_ms;
  backend = label (normalise c.local.backend);
  local_korean_port = port_text c.local.korean_port;
  local_english_port = port_text c.local.english_port;
  microphone = refresh_devices c.audio.device_id devices;
  devices = devices;
  modifiers = modifier_checks c.hotkey.modifiers available;
  shortcut_key = selected_key c.hotkey.key;
  live_preview = c.input.live_preview;
  gain = slider (input_gain c.audio);
}

-- `collect`
unfoldable pub collect : Form → Config → Config
collect f c =
    let device = selected_device f.microphone f.devices in
    record c {
      mode = mode_from_label f.mode;
      remote = record {
        host = f.host;
        korean_port = parse_port f.korean_port;
        english_port = parse_port f.english_port;
        tls = record {
          enabled = f.use_tls;
          ca_certificate = f.ca_cert;
          client_certificate = f.client_cert;
          client_key = f.client_key;
          insecure_skip_verify = c.remote.tls.insecure_skip_verify;
        };
      };
      local = record {
        python_path = f.python_path;
        server_dir = c.local.server_dir;
        model_path = f.model_path;
        draft_model_path = f.draft_path;
        vad_model_path = f.vad_path;
        korean_port = parse_port f.local_korean_port;
        english_port = parse_port f.local_english_port;
        start_both_languages = c.local.start_both_languages;
        cpu_threads = parse_port f.cpu_threads;
        min_speech_ms = parse_port f.min_speech;
        backend = backend_for f.backend;
      };
      audio = record { device_id = device.id; device_name = device.name; gain = clamp_gain f.gain };
      hotkey = record { modifiers = checked_names f.modifiers; key = f.shortcut_key };
      input = record { live_preview = f.live_preview };
    }
