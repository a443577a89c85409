-- ===== src/Session/Controller/Events.antt =====
-- `publish`, `fail`, and the events of a session: `consume`.
use local_dictation.Prelude.{
  ◌+◌, true, false, List, [], ◌∷◌, ◌++◌, Option, none, some, ltb, if◌then◌else◌, length,
}
use local_dictation.Text.{Text, codes}
use local_dictation.Protocol.{
  Language, ServerEvent, ready, transcript, error, closed, ServerError, user_message,
}
use local_dictation.Input.Platform.{Platform}
use local_dictation.Input.Composer.{State, Method, Error, apply, drop_partial}
use local_dictation.Session.Phase.{Phase, failed}
use local_dictation.Session.Controller.Types.{
  Report, Update, Action, Controller, capacity, plain, composing, refused, context_cancelled,
}

module _ {W : Type 0} where
  -- `publish`: a full channel drops the update.
  unfoldable pub publish : Update → Controller W → Controller W
  publish u c =
      if ltb (length c.updates) capacity then record c { updates = c.updates ++ u ∷ [] } else c

  abbrev pub tell : Phase → Text → Option Report → Language → Controller W → Controller W
  tell phase detail err language =
      publish (record { phase = phase; detail = detail; err = err; language = language })

  abbrev pub act : Action → Controller W → Controller W
  act a c = record c { log = a ∷ c.log }

  -- The composer's error is dropped, as `_ =` does.
  abbrev pub compose : Method W → Controller W → Controller W
  compose m c = record c { text = (m c.text).0 }

  -- `cancel()`, which also ends `watchFocus`.
  abbrev pub cancel : Controller W → Controller W
  cancel c = record c { is_cancelled = true; watching = none; log = context_cancelled ∷ c.log }

  -- The end of `consume`: `defer close(finished)`.
  abbrev pub end_consume : Controller W → Controller W
  end_consume c = record c { consuming = false; finished = c.finished + 1 }

module _ {W : Type 0} (p : Platform W) where
  -- `fail`
  unfoldable pub fail : Text → Controller W → Controller W
  fail message c =
      tell failed message (some (plain message)) c.language
        (record (compose (drop_partial p) c) { phase = failed; session = none })

  -- `handleServerError`
  unfoldable pub handle_server_error : ServerError → Controller W → Controller W
  handle_server_error e c =
      let c' = if e.fatal then compose (drop_partial p) c else c in
      tell c'.phase (codes (user_message e.code)) (some (refused e)) c'.language c'

  abbrev pub applied : State W × Option Error → Controller W → Controller W
  applied (s, none) c = record c { text = s }
  applied (s, some e) c =
      tell c.phase (codes "The text could not be written at the cursor.") (some (composing e))
        c.language (record c { text = s })

  -- `consume`, for one event.
  unfoldable pub consume : ServerEvent → Controller W → Controller W
  consume (transcript t) c = applied (apply p t c.text) c
  consume (error e) c = let c' = handle_server_error e c in if e.fatal then end_consume c' else c'
  consume (closed r) c = end_consume c
  consume (ready r) c = c

  -- The loop of `consume` takes an event only while it runs.
  unfoldable pub receive : ServerEvent → Controller W → Controller W
  receive e c = if c.consuming then consume e c else c

  unfoldable pub receive_all : List ServerEvent → Controller W → Controller W
  receive_all [] c = c
  receive_all (e ∷ es) c = receive_all es (receive e c)

  -- `consume`, when the channel of events is closed with the session's error.
  unfoldable pub events_over : Option Text → Controller W → Controller W
  events_over none c = end_consume c
  events_over (some e) c =
      if c.is_cancelled
      then end_consume c
      else end_consume (
          tell failed
            (codes "The connection to the server dropped. Text confirmed so far was kept.")
            (some (plain e)) c.language (compose (drop_partial p) c))

  unfoldable pub disconnect : Option Text → Controller W → Controller W
  disconnect err c = if c.consuming then events_over err c else c
