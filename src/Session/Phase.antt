-- ===== src/Session/Phase.antt =====
-- `State` of client/internal/session/state.go, with the constant `Error` named `failed`.
use Prim.Native.String.{String}
use local_dictation.Prelude.{Bool, true, false}

pub data Phase : Type 0 where
  idle connecting listening finalizing failed : Phase

-- `State.String`
unfoldable pub phase_name : Phase → String
phase_name idle = "Stopped"
phase_name connecting = "Connecting"
phase_name listening = "Listening"
phase_name finalizing = "Finalizing"
phase_name failed = "Error"

-- `LED`
pub data Led : Type 0 where
  gray amber green red : Led

-- `State.LED`
unfoldable pub led : Phase → Led
led listening = green
led connecting = amber
led finalizing = amber
led failed = red
led idle = gray

-- `State.AcceptsSettingsChanges`
unfoldable pub accepts_settings_changes : Phase → Bool
accepts_settings_changes idle = true
accepts_settings_changes failed = true
accepts_settings_changes connecting = false
accepts_settings_changes listening = false
accepts_settings_changes finalizing = false
