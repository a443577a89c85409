-- ===== src/Tests/Window.antt =====
-- The default settings in the window of a Mac with two microphones.
use local_dictation.Prelude.{List, false, [], ◌∷◌, none, some, ◌≡◌, ◌≢◌, refl, arith}
use local_dictation.Prelude.Int.{pos}
use local_dictation.Text.{Text, codes, beq, is_empty, trim_space}
use local_dictation.Settings.Config.{Config, default, hotkey_text, is_mode}
use local_dictation.Settings.Backend.{is_backend, normalise, supported_on}
use local_dictation.Settings.Gain.{is_zero, below_half, above_eight}
use local_dictation.Protocol.{is_language}
use local_dictation.Settings.Validate.{validate, gather, local_problems, port_problems}
use local_dictation.Dial.{new_dialer}
use local_dictation.Window.Form.{Device, filled_form, collect}
use local_dictation.Window.Collected.{Showable, settled, collect-filled_form}
use local_dictation.Window.Collected.Fields.{pick, pass, none_left}
use local_dictation.Window.Apply.{App, apply_settings, not_applied, shortcut_is_not_retried}

abbrev fresh : Config
fresh = record (default (codes "/models/large-v3-turbo")) {
  audio = record {
    device_id = codes "usb";
    device_name = codes "Headset";
    gain = record { mantissa = pos 2; scale = 0 };
  };
}

abbrev available : List Text
available = codes "Ctrl" ∷ codes "Shift" ∷ codes "Option" ∷ codes "Cmd" ∷ []

abbrev devices : List Device
devices =
    record { id = []; name = codes "Default system microphone" }
    ∷ record { id = codes "usb"; name = codes "Headset" }
    ∷ []

showable : Showable available devices fresh
unfolding is_mode is_backend normalise beq is_empty
showable = record {
  mode = refl;
  backend = refl;
  korean = omega arith;
  english = omega arith;
  local_korean = omega arith;
  local_english = omega arith;
  threads = omega arith;
  speech = omega arith;
  distinct = (refl, (refl, (refl, (refl, tt))));
  picked =
      pick _ _ (codes "Ctrl")
        (pick _ _ (codes "Shift") (pass _ _ (codes "Option") (pass _ _ (codes "Cmd") none_left)));
  key = refl;
  microphone = record {
    before = record { id = []; name = codes "Default system microphone" } ∷ [];
    after = [];
    among = refl;
    named = refl;
    first_of_name = (refl, tt);
    last_of_id = tt;
  };
}

collect-filled_form_example :
    collect (filled_form available devices (λ g. g) fresh) fresh ≡ settled (λ g. g) fresh
collect-filled_form_example = collect-filled_form available devices (λ g. g) fresh showable

abbrev app : App
app = record {
  settings = fresh;
  file = fresh;
  dialer = new_dialer fresh (codes "/state");
  live_preview = false;
  gain = pos 1024;
  asked_for = [];
  shown = fresh;
}

abbrev other : Config
other = record fresh { hotkey = record { modifiers = codes "Ctrl" ∷ []; key = codes "J" } }

valid : validate (codes "darwin") other ≡ []
unfolding validate gather is_mode beq is_language is_empty local_problems trim_space port_problems
    is_backend normalise supported_on is_zero below_half above_eight
valid = refl

differ : hotkey_text other.hotkey ≢ hotkey_text app.settings.hotkey
unfolding hotkey_text is_empty
differ e = ground (arith, e)

shortcut_is_not_retried_example :
    ((apply_settings (codes "darwin") other none none app).0.asked_for ≡ other.hotkey ∷ [])
    × (let failed = apply_settings (codes "darwin") other none (some (codes "timeout")) app in
        let again = apply_settings (codes "darwin") other none none failed.0 in
        (failed.1 ≡ some (not_applied (codes "timeout")))
        × (failed.0.settings ≡ other)
        × (again.1 ≡ none)
        × (again.0.asked_for ≡ []))
shortcut_is_not_retried_example =
    shortcut_is_not_retried (codes "darwin") other app valid (codes "timeout") differ
