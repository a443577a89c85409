-- ===== src/LocalServer/Stopping.antt =====
-- The end of a server's process: `Stop`, `Exited` and the goroutine of `Start` that waits for the
-- process, of client/internal/localserver/server.go. What each `select` takes is an argument.
use local_dictation.Prelude.{Bool, true, false, List, [], ◌∷◌, Option, none, some, if◌then◌else◌}
use local_dictation.Text.{Text}

pub data Sent : Type 0 where
  terminated killed : Sent

-- The fields of `Server` that its process changes, and the signals that were sent to the process.
pub record Process : Type 0 where
  pub exited : Bool
  pub stopping : Bool
  pub exit_err : Option Text
  pub sent : List Sent

-- Another server's process, new.
abbrev pub new_process : Process
new_process = record { exited = false; stopping = false; exit_err = none; sent = [] }

-- In `Start`, after `Wait`.
unfoldable pub ended : Option Text → Process → Process
ended err p =
    if p.stopping then record p { exited = true } else record p { exited = true; exit_err = err }

-- What `select` takes: the end of the process, with what `Wait` says, or the time.
pub data Waited : Type 0 where
  gone : Option Text → Waited
  timed_out : Waited

pub data StopError : Type 0 where
  not_signalled : Text → StopError
  did_not_exit : StopError

-- In `Stop`, after the kill.
abbrev pub after_kill : Waited → Process → Process × Option StopError
after_kill (gone err) p = (ended err p, none)
after_kill timed_out p = (p, some did_not_exit)

-- In `Stop`, after the signal.
abbrev pub after_signal : Waited → Waited → Process → Process × Option StopError
after_signal (gone err) second p = (ended err p, none)
after_signal timed_out second p = after_kill second (record p { sent = killed ∷ p.sent })

-- In `Stop`, `terminate`.
abbrev pub signalled : Option Text → Waited → Waited → Process → Process × Option StopError
signalled (some e) first second p = (p, some (not_signalled e))
signalled none first second p = after_signal first second (record p { sent = terminated ∷ p.sent })

-- `Stop`
unfoldable pub stop_process : Option Text → Waited → Waited → Process → Process × Option StopError
stop_process signal first second p =
    if p.exited then (p, none) else signalled signal first second (record p { stopping = true })
