-- ===== src/Session/Controller/Starting.antt =====
-- `Start`.
use local_dictation.Prelude.{
  ℕ, ◌+◌, true, false, List, [], ◌∷◌, ◌++◌, Option, none, some, if◌then◌else◌,
}
use local_dictation.Text.{Text, codes, is_empty}
use local_dictation.Protocol.{
  Language, language_name, ready, transcript, error, closed, new_start, user_message,
}
use local_dictation.Input.Platform.{Platform}
use local_dictation.Input.Composer.{reset}
use local_dictation.Session.Phase.{connecting, listening}
use local_dictation.Session.Controller.Types.{
  Controller, Dialled, Arrival, StartAnswers, Result, startable, dialled, start_sent, closed_now,
  microphone_on, busy, problem, unreachable, connected, event, end_of_events, context_done,
}
use local_dictation.Session.Controller.Events.{tell, act, compose, cancel, fail, receive_all}

-- `awaitReady`
unfoldable pub await_ready : List Arrival → Option Text
await_ready [] = some (codes "the server did not acknowledge the session")
await_ready (event (ready r) ∷ rest) = none
await_ready (event (error e) ∷ rest) = some (codes (user_message e.code))
await_ready (event (transcript t) ∷ rest) = await_ready rest
await_ready (event (closed c) ∷ rest) = await_ready rest
await_ready (end_of_events (some e) ∷ rest) = some (codes "the server closed the connection: " ++ e)
await_ready (end_of_events none ∷ rest) =
    some (codes "the server closed the connection before it was ready")
await_ready (context_done e ∷ rest) = some e

module _ {W : Type 0} where
  -- In `Start`, before the server is dialled.
  unfoldable pub begin_start : Language → Text → Controller W → Controller W
  begin_start language device c = compose reset (
      tell connecting (codes "Connecting…") none language (record c {
        phase = connecting;
        language = language;
        device_id = device;
        has_context = true;
        is_cancelled = false;
        finished = 0;
        consuming = false;
      }))

  -- In `Start`, what the dialer reports while it connects.
  unfoldable pub report_progress : Language → List Text → Controller W → Controller W
  report_progress language [] c = c
  report_progress language (line ∷ lines) c =
      report_progress language lines (tell connecting line none language c)

module _ {W : Type 0} (p : Platform W) where
  -- In `watchFocus`, an empty origin is none.
  abbrev pub told : Option Text → Option Text
  told none = none
  told (some w) = if is_empty w then none else some w

  -- In `Start`, after the microphone has answered.
  unfoldable pub capture : ℕ → StartAnswers → Option Text → Controller W → Result W
  capture n a (some e) c = (
    fail p (codes "could not open the microphone: " ++ e) (cancel (act (closed_now n) c)),
    some (problem e),
  )
  capture n a none c =
      let c' = act (microphone_on c.device_id) c in
      (
        record (tell listening (codes "Listening") none c.language
            (record c' { phase = listening })) { watching = a.origin },
        none,
      )

  -- In `Start`, after `awaitReady`.
  unfoldable pub adopt : ℕ → StartAnswers → Option Text → Controller W → Result W
  adopt n a (some e) c = (
    fail p e (record (cancel (act (closed_now n) c)) { finished = c.finished + 1 }),
    some (problem e),
  )
  adopt n a none c =
      capture n a a.microphone
        (receive_all p a.early (record c { session = some n; consuming = true }))

  -- In `Start`, after `SendStart`.
  unfoldable pub greet : ℕ → StartAnswers → Option Text → Controller W → Result W
  greet n a (some e) c = (
    fail p (codes "could not start the session: " ++ e)
        (record (cancel (act (closed_now n) c)) { finished = c.finished + 1 }),
    some (problem e),
  )
  greet n a none c = adopt n a (await_ready a.arrivals) c

  -- In `Start`, after `Dial`.
  unfoldable pub connect : Text → StartAnswers → Dialled → Controller W → Result W
  connect version a (unreachable e) c = (
    fail p (codes "could not reach the " ++ language_name c.language ++ codes " server: " ++ e)
        (record (cancel c) { finished = c.finished + 1 }),
    some (problem e),
  )
  connect version a (connected n) c =
      greet n a a.send_start
        (act (start_sent n (new_start a.session_id version c.language)) (act (dialled n) c))

  -- `Start`; `version` is the option `ClientVersion`.
  unfoldable pub start : Text → Language → Text → StartAnswers → Controller W → Result W
  start version language device a c =
      if startable c.phase
      then connect version a a.dial
          (report_progress language a.progress (begin_start language device c))
      else (c, some busy)
