-- ===== src/Session/Rest.antt =====
-- The controller between two calls: what it holds open, in each phase, and what can happen to it.
pub mod Steps
pub mod Starting
pub mod Stopping
pub mod Aborting
pub mod Always
use local_dictation.Prelude.{
  ℕ, suc, ◌+◌, ◌≤◌, ◌==◌, Bool, true, false, not, List, [], ◌∷◌, Option, none, some, is_some,
  if◌then◌else◌, ◌≡◌, ◌⊎◌, refl, sym, ap, ◌∙◌, inl, inr, arith, Bool-cases, length, length-append,
}
use local_dictation.Text.{Text, is_empty, beq}
use local_dictation.Protocol.{Language, ServerEvent}
use local_dictation.Input.Platform.{Platform}
use local_dictation.Input.Composer.{State, Error, apply, drop_partial, finish}
use local_dictation.Session.Phase.{Phase, idle, connecting, listening, finalizing, failed}
use local_dictation.Session.Controller.{
  Controller, Action, dialled, start_sent, stop_sent, closed_now, closed_down, microphone_on,
  microphone_off, context_cancelled, capacity, Update, startable, is_listening, is_idle, new,
  publish, tell, act, compose, cancel, begin_start, report_progress, fail, receive, receive_all,
  disconnect, capture, adopt, greet, connect, start, StartAnswers, StopAnswers, Dialled,
  unreachable, connected, Result, Ending, in_time, timed_out, finished_with, settle, finish_session,
  wait, drain, muted, stop_session, stop, toggle, close_now, abort, await_ready, compare_window,
  look, poll_focus, ended_with, moved,
}
use local_dictation.Session.Quiet.{
  Once, Quiet, publish-Quiet, rewritten-Quiet, receive-Quiet, receive_all-Quiet, disconnect-Quiet,
  report-Quiet,
}

abbrev pub remove : ℕ → List ℕ → List ℕ
remove n [] = []
remove n (m ∷ ms) = let rest = remove n ms in if n == m then rest else m ∷ rest

-- The connections that the log leaves open.
unfoldable pub connections : List Action → List ℕ
connections [] = []
connections (dialled n ∷ log) = n ∷ connections log
connections (closed_now n ∷ log) = remove n (connections log)
connections (closed_down n ∷ log) = remove n (connections log)
connections (start_sent n s ∷ log) = connections log
connections (stop_sent n ∷ log) = connections log
connections (microphone_on d ∷ log) = connections log
connections (microphone_off ∷ log) = connections log
connections (context_cancelled ∷ log) = connections log

-- Whether the log leaves the microphone open.
unfoldable pub microphone_open : List Action → Bool
microphone_open [] = false
microphone_open (microphone_on d ∷ log) = true
microphone_open (microphone_off ∷ log) = false
microphone_open (dialled n ∷ log) = microphone_open log
microphone_open (closed_now n ∷ log) = microphone_open log
microphone_open (closed_down n ∷ log) = microphone_open log
microphone_open (start_sent n s ∷ log) = microphone_open log
microphone_open (stop_sent n ∷ log) = microphone_open log
microphone_open (context_cancelled ∷ log) = microphone_open log

abbrev pub session_list : Option ℕ → List ℕ
session_list none = []
session_list (some n) = n ∷ []

abbrev pub is_rest : Phase → Bool
is_rest idle = true
is_rest failed = true
is_rest listening = true
is_rest connecting = false
is_rest finalizing = false

-- Between two calls the phase is none of those that a call passes through; the microphone and one
-- connection are open exactly while the controller is listening; the context of a session that is
-- over has been cancelled; the queue of updates is within its capacity.
pub record AtRest {W : Type 0} (c : Controller W) : Type 0 where
  pub phase : is_rest c.phase ≡ true
  pub microphone : microphone_open c.log ≡ is_listening c.phase
  pub session : is_some c.session ≡ is_listening c.phase
  pub connection : connections c.log ≡ session_list c.session
  pub cancelled : c.has_context ≡ true → is_listening c.phase ≡ false → c.is_cancelled ≡ true
  pub once : Once c
  pub queue : length c.updates ≤ capacity

-- What happens to a controller, with what the outside answers.
pub data Request : Type 0 where
  on_toggle : Language → Text → StartAnswers → StopAnswers → Request
  on_start : Language → Text → StartAnswers → Request
  on_stop : StopAnswers → Request
  on_abort : Text → Request
  on_event : ServerEvent → Request
  on_end_of_events : Option Text → Request
  on_focus : Option Text → Request

module _ {W : Type 0} (p : Platform W) (version : Text) where
  unfoldable pub serve : Request → Controller W → Controller W
  serve (on_toggle l d a b) c = (toggle p version l d a b c).0
  serve (on_start l d a) c = (start p version l d a c).0
  serve (on_stop a) c = (stop p a c).0
  serve (on_abort reason) c = abort p reason c
  serve (on_event e) c = receive p e c
  serve (on_end_of_events e) c = disconnect p e c
  serve (on_focus w) c = poll_focus p w c

  unfoldable pub serve_all : List Request → Controller W → Controller W
  serve_all [] c = c
  serve_all (r ∷ rs) c = serve_all rs (serve r c)
