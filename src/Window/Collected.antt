-- ===== src/Window/Collected.antt =====
-- Saving settings that nobody touched keeps them.
pub mod Fields
use local_dictation.Prelude.{
  ℕ, ◌<◌, ◌^◌, Bool, true, false, List, [], ◌∷◌, ◌++◌, if◌then◌else◌, ◌⊎◌, inl, inr, ◌≡◌, refl, sym,
  ap, ◌∙◌,
}
use local_dictation.Prelude.Int.{ℤ, pos, negsuc}
use local_dictation.Text.{Text}
use local_dictation.Hotkey.Keys.{is_key}
use local_dictation.Settings.Config.{Config, Mode, is_mode, input_gain}
use local_dictation.Settings.Backend.{is_backend, normalise}
use local_dictation.Settings.Gain.{Gain}
use local_dictation.Audio.Gain.{clamp_gain}
use local_dictation.Window.Form.{Device, selected_key, filled_form, collect}
use local_dictation.Window.Collected.Fields.{
  IsPlain, Distinct, Picked, Offered, mode-read, parse_port-port_text, backend-read, modifiers-read,
  device-read,
}

-- What the window can show: a known mode and backend, numbers that are not negative and fit 64 bits,
-- modifiers of the platform in its order, a key that is among the options, and a microphone that is
-- listed, before every other one of its name and after every other one of its identifier.
pub record Showable (available : List Text) (devices : List Device) (c : Config) : Type 0 where
  pub mode : is_mode c.mode ≡ true
  pub backend : is_backend c.local.backend ≡ true
  pub korean : IsPlain c.remote.korean_port
  pub english : IsPlain c.remote.english_port
  pub local_korean : IsPlain c.local.korean_port
  pub local_english : IsPlain c.local.english_port
  pub threads : IsPlain c.local.cpu_threads
  pub speech : IsPlain c.local.min_speech_ms
  pub distinct : Distinct available
  pub picked : Picked c.hotkey.modifiers available
  pub key : is_key c.hotkey.key ≡ true
  pub microphone : Offered (record { id = c.audio.device_id; name = c.audio.device_name }) devices

-- The settings with the backend written out and the gain as the slider shows it.
abbrev pub settled : (Gain → Gain) → Config → Config
settled slider c = record c {
  local = record c.local { backend = normalise c.local.backend };
  audio = record c.audio { gain = clamp_gain (slider (input_gain c.audio)) };
}

-- Saving settings that the window can show, without a change in it, keeps them: only a backend that is
-- empty is written out as the CPU, and the gain is what the slider makes of it.
pub collect-filled_form :
    (available : List Text) (devices : List Device) (slider : Gain → Gain) (c : Config)
    → Showable available devices c
    → collect (filled_form available devices slider c) c ≡ settled slider c
unfolding collect filled_form
collect-filled_form available devices slider c s =
    let key_read : selected_key c.hotkey.key ≡ c.hotkey.key =
      ap (λ (b : Bool). if b then c.hotkey.key else []) s.key in
    let device = device-read _ devices s.microphone in
    λ i. record c {
      mode = mode-read c.mode s.mode i;
      remote = record c.remote {
        korean_port = parse_port-port_text c.remote.korean_port s.korean i;
        english_port = parse_port-port_text c.remote.english_port s.english i;
      };
      local = record c.local {
        korean_port = parse_port-port_text c.local.korean_port s.local_korean i;
        english_port = parse_port-port_text c.local.english_port s.local_english i;
        cpu_threads = parse_port-port_text c.local.cpu_threads s.threads i;
        min_speech_ms = parse_port-port_text c.local.min_speech_ms s.speech i;
        backend = backend-read c.local.backend s.backend i;
      };
      audio = record {
        device_id = (device i).id;
        device_name = (device i).name;
        gain = clamp_gain (slider (input_gain c.audio));
      };
      hotkey = record {
        modifiers = modifiers-read c.hotkey.modifiers available s.distinct s.picked i;
        key = key_read i;
      };
    }
