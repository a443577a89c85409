-- ===== src/Tests/Main.antt =====
-- The other language is chosen on the main tab, with settings that are and are not saved.
use local_dictation.Prelude.{true, false, [], none, some, ◌≡◌, ◌≢◌, refl, inl}
use local_dictation.Prelude.Int.{pos}
use local_dictation.Text.{Text, codes, beq, is_empty, trim_space}
use local_dictation.Protocol.{is_language, english}
use local_dictation.Session.Phase.{idle, accepts_settings_changes}
use local_dictation.Settings.Config.{Config, default, is_mode}
use local_dictation.Settings.Backend.{is_backend, normalise, supported_on}
use local_dictation.Settings.Gain.{is_zero, below_half, above_eight}
use local_dictation.Settings.Validate.{validate, gather, local_problems, port_problems}
use local_dictation.Dial.{new_dialer}
use local_dictation.Window.Apply.{App, ApplyError, not_saved}
use local_dictation.Window.Main.{MainTab, new_main_tab, on_language_changed, language_label}
use local_dictation.Window.Main.Choice.{unsaved_choice_is_shown}

abbrev fresh : Config
fresh = default (codes "/models/large-v3-turbo")

abbrev app : App
app = record {
  settings = fresh;
  file = fresh;
  dialer = new_dialer fresh (codes "/state");
  live_preview = false;
  gain = pos 1024;
  asked_for = [];
  shown = fresh;
}

abbrev tab : MainTab
tab = new_main_tab fresh none

abbrev text_of : ApplyError → Text
text_of e = codes "not applied"

valid : validate (codes "darwin") (record fresh { language = english }) ≡ []
unfolding validate gather is_mode beq is_language is_empty local_problems trim_space port_problems
    is_backend normalise supported_on is_zero below_half above_eight
valid = refl

ready : accepts_settings_changes idle ≡ true
unfolding accepts_settings_changes
ready = refl

unsaved_choice_is_shown_example :
    (let (b, n, err) =
        on_language_changed text_of
          (codes "darwin")
          none
          none
          idle
          (language_label english)
          (app, tab) in
      (err ≡ none)
      × (b.settings.language ≡ english)
      × (n.language ≡ language_label b.settings.language))
    × (let (b, n, err) =
          on_language_changed text_of
            (codes "darwin")
            (some (codes "disk full"))
            none
            idle
            (language_label english)
            (app, tab) in
        (err ≡ some (not_saved (codes "disk full")))
        × (b.settings ≡ fresh)
        × (n.language ≢ language_label b.settings.language))
unsaved_choice_is_shown_example =
    unsaved_choice_is_shown text_of (codes "darwin") idle app tab english (inl (refl, refl)) ready
      valid (codes "disk full")
