-- ===== src/Tests/Session.antt =====
-- Sessions over the scripted typer.
use local_dictation.Prelude.{true, false, List, [], ◌∷◌, none, some, ◌≡◌, refl, ◌↔◌, arith}
use local_dictation.Prelude.Int.{pos}
use local_dictation.Text.{codes}
use local_dictation.Protocol.{Transcript, Ready, ready, transcript, korean, version}
use local_dictation.Input.Platform.{Platform}
use local_dictation.Input.Composer.{State, new_composer, apply, drop_partial}
use local_dictation.Keystroke.{Keystroke, keystroke_platform}
use local_dictation.Session.Phase.{listening}
use local_dictation.Session.Controller.{
  Controller, new, StartAnswers, StopAnswers, connected, event, timed_out, start, stop, toggle,
  busy, await_ready, disconnect, receive, abort,
}
use local_dictation.Session.Rest.{Request, AtRest, on_toggle, on_event, on_focus, serve_all}
use local_dictation.Session.Rest.Always.{always-AtRest}
use local_dictation.Session.Outcome.{Outcome, Acknowledged, await_ready_iff, start-Outcome}
use local_dictation.Session.Closing.{Stopped, stop_outcome}
use local_dictation.Session.Lost.{lost_update, dropped_then_busy, abort_then_transcript}
use local_dictation.Tests.Desk.{Desk, desk_typer}

abbrev platform : Platform (Keystroke Desk)
platform = keystroke_platform desk_typer

abbrev desk : State (Keystroke Desk)
desk = record {
  composer = record new_composer { live_preview = true };
  world = record { marked = []; open_ = false; world = record { text = codes "> "; script = [] } };
}

abbrev greeting : Ready
greeting = record {
  kind = codes "ready";
  protocol_version = version;
  session_id = codes "s-1";
  language = korean;
  model = codes "small";
  server_version = codes "1.0";
}

abbrev spoken : Transcript
spoken = record {
  kind = codes "transcript";
  protocol_version = version;
  utterance_id = codes "u1";
  revision = pos 1;
  stable = codes "hello";
  partial = codes " wor";
  final = false;
}

abbrev later : Transcript
later = record spoken { utterance_id = codes "u2"; revision = pos 2; stable = codes "secret" }

abbrev answers : StartAnswers
answers = record {
  progress = codes "loading the model" ∷ [];
  dial = connected 1;
  session_id = codes "s-1";
  send_start = none;
  arrivals = event (transcript spoken) ∷ event (ready greeting) ∷ [];
  early = [];
  microphone = none;
  origin = some (codes "editor");
}

abbrev endings : StopAnswers
endings = record {
  microphone = some (codes "gone");
  send_stop = none;
  drained = transcript spoken ∷ [];
  ending = timed_out none;
}

abbrev requests : List Request
requests =
    on_toggle korean (codes "usb") answers endings
    ∷ on_event (transcript spoken)
    ∷ on_focus (some (codes "chat"))
    ∷ on_event (transcript later)
    ∷ on_toggle korean (codes "usb") answers endings
    ∷ on_toggle korean (codes "usb") answers endings
    ∷ []

abbrev open_one : Controller (Keystroke Desk)
open_one = record (new desk) {
  phase = listening;
  session = some 1;
  consuming = true;
  has_context = true;
}

always-AtRest_example : AtRest (serve_all platform (codes "1.0") requests (new desk))
always-AtRest_example = always-AtRest platform (codes "1.0") desk requests

start-Outcome_example :
    Outcome
      (codes "1.0")
      korean
      (codes "usb")
      answers
      []
      (start platform (codes "1.0") korean (codes "usb") answers (new desk))
start-Outcome_example =
    start-Outcome platform (codes "1.0") korean (codes "usb") answers (new desk) refl

await_ready_iff_example : (await_ready answers.arrivals ≡ none) ↔ Acknowledged answers.arrivals
await_ready_iff_example = await_ready_iff answers.arrivals

stop_outcome_example : Stopped none 1 [] (stop platform endings open_one)
stop_outcome_example = stop_outcome platform 1 endings open_one refl refl

dropped_then_busy_example :
    let d = disconnect platform (some (codes "reset")) open_one in
    (d.updates ≡ lost_update platform (codes "reset") open_one ∷ [])
    × (d.log ≡ [])
    × (start platform (codes "1.0") korean (codes "usb") answers d ≡ (d, some busy))
    × (toggle platform (codes "1.0") korean (codes "usb") answers endings d
        ≡ stop platform endings d)
dropped_then_busy_example =
    dropped_then_busy platform (codes "reset") (codes "1.0") korean (codes "usb") answers endings
      open_one refl refl refl (omega arith)

abort_then_transcript_example :
    (receive platform (transcript later) (abort platform (codes "moved") open_one)).text
    ≡ (apply platform later (drop_partial platform desk).0).0
abort_then_transcript_example =
    abort_then_transcript platform (codes "moved") later open_one refl refl
