-- ===== src/Session/Controller/Types.antt =====
-- The state of `Controller`, and what the outside answers it.
use local_dictation.Prelude.{ℕ, Bool, true, false, List, [], Option, none}
use local_dictation.Text.{Text}
use local_dictation.Protocol.{Language, ServerEvent, ServerError, Start}
use local_dictation.Input.Composer.{State, Error}
use local_dictation.Session.Phase.{Phase, idle, connecting, listening, finalizing, failed}

-- The field `Err` of an update, by where the error comes from.
pub data Report : Type 0 where
  plain : Text → Report
  composing : Error → Report
  refused : ServerError → Report

-- `Update`
pub record Update : Type 0 where
  pub phase : Phase
  pub detail : Text
  pub err : Option Report
  pub language : Language

-- What the controller does to the outside; the number tells the connections apart.
pub data Action : Type 0 where
  dialled : ℕ → Action
  start_sent : ℕ → Start → Action
  stop_sent : ℕ → Action
  closed_now : ℕ → Action
  closed_down : ℕ → Action
  microphone_on : Text → Action
  microphone_off : Action
  context_cancelled : Action

-- What a call returns: `ErrBusy`, the message of another error, or the panic on a nil session.
pub data Problem : Type 0 where
  busy : Problem
  problem : Text → Problem
  nil_session : Problem

-- `Controller`: the log has the newest action first, `finished` counts how often the channel of the
-- current session has been closed, `consuming` tells whether `consume` still reads events, and
-- `watching` holds the window that `watchFocus` compares with.
pub record Controller (W : Type 0) : Type 0 where
  pub phase : Phase
  pub language : Language
  pub device_id : Text
  pub session : Option ℕ
  pub has_context : Bool
  pub is_cancelled : Bool
  pub finished : ℕ
  pub consuming : Bool
  pub watching : Option Text
  pub updates : List Update
  pub text : State W
  pub log : List Action

-- `New`
abbrev pub new : {W : Type 0} → State W → Controller W
new s = record {
  phase = idle;
  language = [];
  device_id = [];
  session = none;
  has_context = false;
  is_cancelled = false;
  finished = 0;
  consuming = false;
  watching = none;
  updates = [];
  text = s;
  log = [];
}

-- What `Dial` answers.
pub data Dialled : Type 0 where
  unreachable : Text → Dialled
  connected : ℕ → Dialled

-- What `awaitReady` sees: an event, the end of the channel with the session's error, or the end of
-- the context. When nothing is left to come, its timer runs out.
pub data Arrival : Type 0 where
  event : ServerEvent → Arrival
  end_of_events : Option Text → Arrival
  context_done : Text → Arrival

-- What the outside answers while a session starts; `early` are the events that `consume` handles
-- before the microphone is open, `origin` is the window in front, if it can be told p.
pub record StartAnswers : Type 0 where
  pub progress : List Text
  pub dial : Dialled
  pub session_id : Text
  pub send_start : Option Text
  pub arrivals : List Arrival
  pub early : List ServerEvent
  pub microphone : Option Text
  pub origin : Option Text

-- How the events end while a session stops; on a timeout, `Err` as `consume` sees it.
pub data Ending : Type 0 where
  in_time : Option Text → Ending
  timed_out : Option Text → Ending

pub record StopAnswers : Type 0 where
  pub microphone : Option Text
  pub send_stop : Option Text
  pub drained : List ServerEvent
  pub ending : Ending

abbrev pub Result : Type 0 → Type 0
Result W = Controller W × Option Problem

-- The capacity of the channel of updates.
abbrev pub capacity : ℕ
capacity = 32

-- The test of `Start`: `Idle` or `Error`.
abbrev pub startable : Phase → Bool
startable idle = true
startable failed = true
startable connecting = false
startable listening = false
startable finalizing = false

abbrev pub is_listening : Phase → Bool
is_listening listening = true
is_listening idle = false
is_listening failed = false
is_listening connecting = false
is_listening finalizing = false
