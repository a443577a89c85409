-- ===== src/Session/Controller.antt =====
-- `Controller` of client/internal/session/controller.go. Its own fields stand beside the composer and
-- a log of what it does to the server, the microphone and the context of the session. What the outside
-- answers in a call is an argument of the call. Calls are one after the other here; the events of the
-- session come between them, one at a time; those of a session are not followed past the next `Start`.
pub mod Types
pub mod Events
pub mod Starting
pub mod Stopping
pub use local_dictation.Session.Controller.Types.{
  Report, Update, Action, Problem, Controller, new, Dialled, Arrival, StartAnswers, Ending,
  StopAnswers, Result, capacity, startable, is_listening, plain, composing, refused, dialled,
  start_sent, stop_sent, closed_now, closed_down, microphone_on, microphone_off, context_cancelled,
  busy, problem, nil_session, unreachable, connected, event, end_of_events, context_done, in_time,
  timed_out,
}
pub use local_dictation.Session.Controller.Events.{tell, act, compose, cancel, end_consume, applied}
unfoldable pub use local_dictation.Session.Controller.Events.{
  publish, fail, handle_server_error, consume, receive, receive_all, events_over, disconnect,
}
pub use local_dictation.Session.Controller.Starting.{told}
unfoldable pub use local_dictation.Session.Controller.Starting.{
  await_ready, begin_start, report_progress, capture, adopt, greet, connect, start,
}
pub use local_dictation.Session.Controller.Stopping.{
  finished_with, settle, ended_with, muted, stop_session, close_now, is_idle, moved, compare_window,
  look,
}
unfoldable pub use local_dictation.Session.Controller.Stopping.{
  finish_session, wait, drain, stop, toggle, abort, poll_focus,
}
