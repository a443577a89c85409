-- ===== src/Window/Apply.antt =====
-- `ApplySettings` of client/internal/ui/app.go and `onSave` of client/internal/ui/settings_tab.go. The
-- registrations of the shortcut are asked for in their order; they run on a goroutine of their own.
use mathlib.Core.Path.{subst}
use local_dictation.Prelude.{
  Bool, true, false, not, ◌&&◌, List, [], ◌∷◌, ◌++◌, Option, none, some, if◌then◌else◌, ◌≡◌, ◌≢◌,
  refl, sym, arith,
}
use local_dictation.Prelude.Int.{ℤ}
use local_dictation.Text.{Text, codes, is_empty, beq}
use local_dictation.Text.Laws.{beq_iff, beq_refl}
use local_dictation.Settings.Config.{Config, Hotkey, hotkey_text, input_gain, mode_local}
use local_dictation.Settings.Validate.{Problem, validate}
use local_dictation.Audio.Gain.{set}
use local_dictation.Dial.{Dialer, update_dialer}

-- `App`: the settings in force, the file, and what the parts of the application were told.
pub record App : Type 0 where
  pub settings : Config
  pub file : Config
  pub dialer : Dialer
  pub live_preview : Bool
  pub gain : ℤ
  pub asked_for : List Hotkey
  pub shown : Config

pub data ApplyError : Type 0 where
  invalid : List Problem → ApplyError
  not_saved : Text → ApplyError
  not_applied : Text → ApplyError

-- `registerHotkey`
abbrev pub register_hotkey : Hotkey → App → App
register_hotkey h a = record a { asked_for = h ∷ a.asked_for }

-- In `ApplySettings`, the parts after the servers.
abbrev pub activated : Config → Config → App → App
activated previous c a =
    let a1 = record a { live_preview = c.input.live_preview; gain = set (input_gain c.audio) } in
    let a2 =
      if not (beq (hotkey_text c.hotkey) (hotkey_text previous.hotkey))
      then register_hotkey c.hotkey a1
      else a1 in
    record a2 { shown = c }

-- In `ApplySettings`, after the dialer's `Update`.
abbrev pub updated : Config → Config → Option Text → App → App × Option ApplyError
updated previous c (some e) a = (a, some (not_applied e))
updated previous c none a = (activated previous c a, none)

-- In `ApplySettings`, after the file has been written.
abbrev pub saved : Config → Option Text → Option Text → App → App × Option ApplyError
saved c (some e) stop_err a = (a, some (not_saved e))
saved c none stop_err a =
    updated a.settings c stop_err
      (record a { file = c; settings = c; dialer = update_dialer c a.dialer })

-- In `ApplySettings`, after `Validate`.
abbrev pub validated :
    Config → List Problem → Option Text → Option Text → App → App × Option ApplyError
validated c (p ∷ ps) save_err stop_err a = (a, some (invalid (p ∷ ps)))
validated c [] save_err stop_err a = saved c save_err stop_err a

-- `ApplySettings`
unfoldable pub apply_settings :
    Text → Config → Option Text → Option Text → App → App × Option ApplyError
apply_settings goos c save_err stop_err a = validated c (validate goos c) save_err stop_err a

-- In `onSave`, what is said after the settings have been applied; `problem` is `modelProblem`.
abbrev pub said_after : Text → Config → Option ApplyError → (ApplyError → Text) → Text
said_after problem c (some e) text_of = text_of e
said_after problem c none text_of =
    if not (is_empty problem) && beq c.mode mode_local
    then codes "Settings saved. " ++ problem
    else codes "Settings saved."

module _ (goos : Text) (c : Config) (a : App) (valid : validate goos c ≡ []) where
  asked_once :
      (b : App)
      → (hotkey_text c.hotkey ≢ hotkey_text a.settings.hotkey)
      → (activated a.settings c b).asked_for ≡ c.hotkey ∷ b.asked_for
  asked_once b differ = by_test (beq (hotkey_text c.hotkey) (hotkey_text a.settings.hotkey)) refl
    where
      by_test :
          (t : Bool)
          → beq (hotkey_text c.hotkey) (hotkey_text a.settings.hotkey) ≡ t
          → (activated a.settings c b).asked_for ≡ c.hotkey ∷ b.asked_for
      by_test true e = absurd (differ ((beq_iff _ _).0 e))
      by_test false e = ground (arith, e)

  asked_never : (b : App) → (activated c c b).asked_for ≡ b.asked_for
  asked_never b = ground (arith, beq_refl (hotkey_text c.hotkey))

  -- Where the new settings have another shortcut, saving them asks for its registration; but where the
  -- servers could not be stopped, the registration is not asked for, and saving the same settings again
  -- succeeds and does not ask for it either.
  pub shortcut_is_not_retried :
      (e : Text)
      → hotkey_text c.hotkey ≢ hotkey_text a.settings.hotkey
      → ((apply_settings goos c none none a).0.asked_for ≡ c.hotkey ∷ a.asked_for)
        × (let failed = apply_settings goos c none (some e) a in
            let again = apply_settings goos c none none failed.0 in
            (failed.1 ≡ some (not_applied e))
            × (failed.0.settings ≡ c)
            × (again.1 ≡ none)
            × (again.0.asked_for ≡ a.asked_for))
  unfolding apply_settings
  shortcut_is_not_retried e differ =
      let stored = record a { file = c; settings = c; dialer = update_dialer c a.dialer } in
      let stored_again = record stored { dialer = update_dialer c stored.dialer } in
      subst
        (λ (ps : List Problem).
          ((validated c ps none none a).0.asked_for ≡ c.hotkey ∷ a.asked_for)
          × (let failed = validated c ps none (some e) a in
              let again = validated c ps none none failed.0 in
              (failed.1 ≡ some (not_applied e))
              × (failed.0.settings ≡ c)
              × (again.1 ≡ none)
              × (again.0.asked_for ≡ a.asked_for)))
        (sym valid) (asked_once stored differ, (refl, refl, refl, asked_never stored_again))
