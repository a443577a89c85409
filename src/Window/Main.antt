-- ===== src/Window/Main.antt =====
-- The main tab: client/internal/ui/main_tab.go, and what app.go puts in its place where text cannot be
-- written. `SetSelected` also runs the handler; where it does in `onLanguageChanged`, the same answer
-- comes a second time, and the model leaves that run out.
pub mod Choice
use local_dictation.Prelude.{
  ℕ, Bool, true, false, not, List, [], ◌∷◌, ◌++◌, Option, none, some, if◌then◌else◌, ◌≡◌, ◌⊎◌, inl,
  inr, refl, ap, ◌∙◌, sym, arith, Bool-cases,
}
use local_dictation.Text.{Text, codes, is_empty, beq}
use local_dictation.Protocol.{Language, korean, english}
use local_dictation.Session.Phase.{
  Phase, idle, connecting, listening, finalizing, failed, Led, gray, led, accepts_settings_changes,
}
use local_dictation.Session.Controller.Types.{Update}
use local_dictation.Settings.Config.{Config, hotkey_text}
use local_dictation.Settings.Validate.{Problem, validate}
use local_dictation.Window.Apply.{
  App, ApplyError, invalid, not_saved, not_applied, apply_settings, validated, saved, updated,
}

-- `mainTab`, and whether the settings tab can be edited.
pub record MainTab : Type 0 where
  pub status : Led
  pub caption : Text
  pub detail : Text
  pub language : Text
  pub language_enabled : Bool
  pub shortcut : Text
  pub problem : Option Text
  pub settings_editable : Bool

-- `languageLabel`
unfoldable pub language_label : Language → Text
language_label l = if beq l english then codes "English" else codes "Korean"

-- `languageFromLabel`
unfoldable pub language_from_label : Text → Language
language_from_label label = if beq label (codes "English") then english else korean

-- `statusCaption`
unfoldable pub status_caption : Phase → Text
status_caption idle = codes "Dictation stopped"
status_caption connecting = codes "Connecting"
status_caption listening = codes "Listening"
status_caption finalizing = codes "Finishing"
status_caption failed = codes "Needs attention"

-- `newMainTab`
abbrev pub new_main_tab : Config → Option Text → MainTab
new_main_tab s adapter_err = record {
  status = gray;
  caption = codes "Dictation stopped";
  detail = codes "Ready to start with the global shortcut.";
  language = language_label s.language;
  language_enabled = true;
  shortcut = hotkey_text s.hotkey;
  problem = adapter_err;
  settings_editable = true;
}

-- `applyUpdate`
unfoldable pub apply_update : Update → MainTab → MainTab
apply_update u m = record m {
  status = led u.phase;
  caption = status_caption u.phase;
  detail = if is_empty u.detail then m.detail else u.detail;
  language_enabled = accepts_settings_changes u.phase;
  settings_editable = accepts_settings_changes u.phase;
}

-- `settingsChanged`
abbrev pub settings_changed : Config → MainTab → MainTab
settings_changed s m = record m {
  shortcut = hotkey_text s.hotkey;
  language = language_label s.language;
}

-- `setShortcutProblem`
abbrev pub set_shortcut_problem : Text → MainTab → MainTab
set_shortcut_problem message m = record m {
  problem = if is_empty message then none else some message;
}

-- In `onLanguageChanged`, after `ApplySettings`, which calls `settingsChanged` where it succeeds.
abbrev pub language_applied :
    (ApplyError → Text) → App × Option ApplyError → MainTab → App × MainTab × Option ApplyError
language_applied text_of (a, some e) m = (a, record m { detail = text_of e }, some e)
language_applied text_of (a, none) m = (a, settings_changed a.settings m, none)

-- `onLanguageChanged`, which runs when the radio group shows the new label; the last component is the
-- error of `ApplySettings`.
unfoldable pub on_language_changed :
    (ApplyError → Text)
    → Text
    → Option Text
    → Option Text
    → Phase
    → Text
    → App × MainTab
    → App × MainTab × Option ApplyError
on_language_changed text_of goos save_err stop_err phase label (a, m) =
    let chosen = record m { language = label } in
    if accepts_settings_changes phase
    then language_applied text_of
        (apply_settings goos (record a.settings { language = language_from_label label }) save_err
          stop_err a)
        chosen
    else (
      a,
      record chosen {
        language = language_label a.settings.language;
        detail = codes "The language cannot change while dictation is running.";
      },
      none,
    )
