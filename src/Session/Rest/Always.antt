-- ===== src/Session/Rest/Always.antt =====
-- Whatever happens to a controller.
use local_dictation.Prelude.{List, [], ◌∷◌}
use local_dictation.Text.{Text}
use local_dictation.Protocol.{Language}
use local_dictation.Input.Platform.{Platform}
use local_dictation.Input.Composer.{State}
use local_dictation.Session.Controller.{
  Controller, startable, is_listening, new, StartAnswers, StopAnswers, toggle,
}
use local_dictation.Session.Quiet.{receive-Quiet, disconnect-Quiet}
use local_dictation.Session.Rest.{
  AtRest, Request, on_toggle, on_start, on_stop, on_abort, on_event, on_end_of_events, on_focus,
  serve, serve_all,
}
use local_dictation.Session.Rest.Steps.{new-AtRest, Quiet-AtRest, if-AtRest}
use local_dictation.Session.Rest.Starting.{start-AtRest}
use local_dictation.Session.Rest.Stopping.{stop-AtRest}
use local_dictation.Session.Rest.Aborting.{abort-AtRest, poll-AtRest}

module _ {W : Type 0} (p : Platform W) where
  toggle-AtRest :
      (v : Text) (l : Language) (d : Text) (a : StartAnswers) (b : StopAnswers) (c : Controller W)
      → AtRest c
      → AtRest (toggle p v l d a b c).0
  unfolding toggle
  toggle-AtRest v l d a b c r =
      if-AtRest (startable c.phase) _ _ (λ _. start-AtRest p v l d a c r)
        (λ _. if-AtRest (is_listening c.phase) _ _ (λ _. stop-AtRest p b c r) (λ _. r))

module _ {W : Type 0} (p : Platform W) (version : Text) where
  serve-AtRest : (r : Request) (c : Controller W) → AtRest c → AtRest (serve p version r c)
  unfolding serve
  serve-AtRest (on_toggle l d a b) c r = toggle-AtRest p version l d a b c r
  serve-AtRest (on_start l d a) c r = start-AtRest p version l d a c r
  serve-AtRest (on_stop a) c r = stop-AtRest p a c r
  serve-AtRest (on_abort reason) c r = abort-AtRest p reason c r
  serve-AtRest (on_event e) c r = Quiet-AtRest (receive-Quiet p e c) r
  serve-AtRest (on_end_of_events e) c r = Quiet-AtRest (disconnect-Quiet p e c) r
  serve-AtRest (on_focus w) c r = poll-AtRest p w c r

  serve_all-AtRest :
      (rs : List Request) (c : Controller W) → AtRest c → AtRest (serve_all p version rs c)
  unfolding serve_all
  serve_all-AtRest [] c r = r
  serve_all-AtRest (q ∷ rs) c r = serve_all-AtRest rs (serve p version q c) (serve-AtRest q c r)

  -- Whatever is asked of a new controller, in whatever order and whatever the server, the microphone and
  -- the platform answer, between two calls its phase is `Idle`, `Listening` or `Error`, and the microphone
  -- and exactly one connection, that of its session, are open while it is listening and none otherwise;
  -- the context of a session that is over is cancelled, the channel that tells its end is closed at most
  -- once, and no more than 32 updates are queued. Calls do not overlap.
  pub always-AtRest : (s : State W) (rs : List Request) → AtRest (serve_all p version rs (new s))
  always-AtRest s rs = serve_all-AtRest rs (new s) (new-AtRest s)
