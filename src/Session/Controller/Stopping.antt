-- ===== src/Session/Controller/Stopping.antt =====
-- `Stop`, `Toggle`, `Abort` and `watchFocus`.
use local_dictation.Prelude.{ℕ, Bool, true, false, ◌++◌, Option, none, some, if◌then◌else◌}
use local_dictation.Text.{Text, codes, is_empty, beq}
use local_dictation.Protocol.{Language}
use local_dictation.Input.Platform.{Platform}
use local_dictation.Input.Composer.{State, Error, drop_partial, finish}
use local_dictation.Session.Phase.{Phase, idle, connecting, listening, finalizing, failed}
use local_dictation.Session.Controller.Types.{
  Controller, StartAnswers, Ending, StopAnswers, Result, startable, is_listening, plain, composing,
  stop_sent, closed_now, closed_down, microphone_off, busy, problem, nil_session, in_time,
  timed_out,
}
use local_dictation.Session.Controller.Events.{tell, act, compose, cancel, receive_all, disconnect}
use local_dictation.Session.Controller.Starting.{start}

module _ {W : Type 0} (p : Platform W) where
  abbrev pub finished_with : ℕ → State W × Option Error → Controller W → Controller W
  finished_with n (s, none) c = act (closed_down n) (record c { text = s })
  finished_with n (s, some e) c = act (closed_down n) (
      tell finalizing (codes "Could not finish the text.") (some (composing e)) c.language
        (record c { text = s }))

  abbrev pub settle : Option Text → Controller W → Controller W
  settle none c =
      tell idle (codes "Ready") none c.language (record c { session = none; phase = idle })
  settle (some e) c =
      tell failed e (some (plain e)) c.language (record c { session = none; phase = failed })

  -- `finish`
  unfoldable pub finish_session : ℕ → Option Text → Controller W → Controller W
  finish_session n cause c = settle cause (finished_with n (finish p c.text) c)

  abbrev pub ended_with : Ending → Option Text
  ended_with (in_time e) = e
  ended_with (timed_out e) = e

  -- In `Stop`, the wait for the end of the events; where the time is over, `consume` is not waited for, and
  -- its last events and its end come after `Stop`.
  unfoldable pub wait : ℕ → Ending → Controller W → Controller W
  wait n (in_time e) c = disconnect p e c
  wait n (timed_out e) c =
      if c.consuming
      then act (closed_now n) (
          tell finalizing (codes "The server did not finish in time; keeping what was confirmed.")
            none c.language c)
      else c

  -- In `Stop`, after `SendStop`.
  unfoldable pub drain : ℕ → StopAnswers → Option Text → Controller W → Result W
  drain n a none c =
      (finish_session n none (cancel (wait n a.ending (receive_all p a.drained c))), none)
  drain n a (some e) c = (
    finish_session n (some (codes "could not stop the session: " ++ e)) (
        cancel
          (disconnect p (ended_with a.ending) (receive_all p a.drained (act (closed_now n) c)))),
    some (problem e),
  )

  abbrev pub muted : Option Text → Controller W → Controller W
  muted none c = act microphone_off c
  muted (some e) c =
      tell finalizing (codes "microphone: " ++ e) none c.language (act microphone_off c)

  abbrev pub stop_session : Option ℕ → StopAnswers → Controller W → Result W
  stop_session none a c = (c, some nil_session)
  stop_session (some n) a c = drain n a a.send_stop (act (stop_sent n) c)

  -- `Stop`
  unfoldable pub stop : StopAnswers → Controller W → Result W
  stop a c =
      if is_listening c.phase
      then stop_session c.session a (
          muted a.microphone (
            tell finalizing (codes "Finishing the sentence…") none c.language
              (record c { phase = finalizing })))
      else (c, some busy)

  -- `Toggle`
  unfoldable pub toggle :
      Text → Language → Text → StartAnswers → StopAnswers → Controller W → Result W
  toggle version language device a b c =
      if startable c.phase
      then start p version language device a c
      else if is_listening c.phase
      then stop b c
      else (c, some busy)

  abbrev pub close_now : Option ℕ → Controller W → Controller W
  close_now none c = c
  close_now (some n) c = act (closed_now n) c

  abbrev pub is_idle : Phase → Bool
  is_idle idle = true
  is_idle connecting = false
  is_idle listening = false
  is_idle finalizing = false
  is_idle failed = false

  -- `Abort`
  unfoldable pub abort : Text → Controller W → Controller W
  abort reason c =
      if is_idle c.phase
      then c
      else let c1 = act microphone_off c in
        let c2 = if c1.has_context then cancel c1 else c1 in
        tell idle reason none c2.language
          (record (compose (drop_partial p) (close_now c2.session c2)) {
            phase = idle;
            session = none;
          })

  abbrev pub moved : Text
  moved = codes "Dictation stopped: you moved to another window. Text already confirmed was kept."

  abbrev pub compare_window : Text → Option Text → Controller W → Controller W
  compare_window origin none c = c
  compare_window origin (some current) c =
      if is_empty current then c else if beq current origin then c else abort moved c

  abbrev pub look : Option Text → Option Text → Controller W → Controller W
  look none current c = c
  look (some origin) current c =
      if is_listening c.phase then compare_window origin current c else record c { watching = none }

  -- `watchFocus`, for one tick; `none` stands for an error of the watcher.
  unfoldable pub poll_focus : Option Text → Controller W → Controller W
  poll_focus current c = look c.watching current c
