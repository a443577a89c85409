-- ===== src/Session/Rest/Starting.antt =====
-- `Start`, on each of its branches.
use local_dictation.Prelude.{
  ℕ, true, false, ◌∷◌, Option, none, some, is_some, ◌≡◌, refl, sym, ap, ◌∙◌, arith,
}
use local_dictation.Text.{Text}
use local_dictation.Protocol.{Language}
use local_dictation.Input.Platform.{Platform}
use local_dictation.Session.Phase.{Phase, listening}
use local_dictation.Session.Controller.{
  Controller, microphone_on, startable, is_listening, capture, adopt, greet, connect, start,
  StartAnswers, Dialled, unreachable, connected, await_ready,
}
use local_dictation.Session.Quiet.{publish-Quiet, receive_all-Quiet}
use local_dictation.Session.Rest.{connections, microphone_open, session_list, AtRest}
use local_dictation.Session.Rest.Steps.{
  Quiet-AtRest, Holds, Fresh, Quiet-Holds, begin-Fresh, report-Fresh, closed-Fresh, closed_Holds,
  cancel-Holds, fail-AtRest, if-AtRest,
}

module _ {W : Type 0} (p : Platform W) where
  listen-AtRest :
      (n : ℕ) (a : StartAnswers) (m : Option Text) (c : Controller W)
      → Holds (some n) false c
      → c.session ≡ some n
      → AtRest (capture p n a m c).0
  unfolding capture connections microphone_open
  listen-AtRest n a (some e) c h s = fail-AtRest p _ _ (cancel-Holds (closed_Holds n h)) refl
  listen-AtRest n a none c h s =
      let opened : AtRest
          (record c { log = microphone_on c.device_id ∷ c.log; phase = listening }) =
        record {
          phase = refl;
          microphone = refl;
          session = ap is_some s;
          connection = h.connection ∙ sym (ap session_list s);
          cancelled = ground arith;
          once = record { at_most = h.once.at_most; not_yet = h.once.not_yet };
          queue = h.queue;
        } in
      let told = Quiet-AtRest (publish-Quiet _ _) opened in
      record {
        phase = told.phase;
        microphone = told.microphone;
        session = told.session;
        connection = told.connection;
        cancelled = told.cancelled;
        once = record { at_most = told.once.at_most; not_yet = told.once.not_yet };
        queue = told.queue;
      }

  adopt-AtRest :
      (n : ℕ) (a : StartAnswers) (r : Option Text) (c : Controller W)
      → Fresh (some n) c
      → AtRest (adopt p n a r c).0
  unfolding adopt
  adopt-AtRest n a (some e) c h = fail-AtRest p _ _ (closed-Fresh n h) refl
  adopt-AtRest n a none c h =
      let q = receive_all-Quiet p a.early (record c { session = some n; consuming = true }) in
      listen-AtRest n a a.microphone _
        (Quiet-Holds q (record {
          connection = h.connection;
          microphone = h.microphone;
          once = record { at_most = omega (arith, h.unfinished); not_yet = λ _. h.unfinished };
          queue = h.queue;
        }))
        q.same_session

  greet-AtRest :
      (n : ℕ) (a : StartAnswers) (r : Option Text) (c : Controller W)
      → Fresh (some n) c
      → AtRest (greet p n a r c).0
  unfolding greet
  greet-AtRest n a (some e) c h = fail-AtRest p _ _ (closed-Fresh n h) refl
  greet-AtRest n a none c h = adopt-AtRest n a (await_ready a.arrivals) c h

  connect-AtRest :
      (v : Text) (a : StartAnswers) (d : Dialled) (c : Controller W)
      → Fresh none c
      → AtRest (connect p v a d c).0
  unfolding connect connections microphone_open
  connect-AtRest v a (unreachable e) c h =
      fail-AtRest p _ _
        (record {
          connection = h.connection;
          microphone = h.microphone;
          once = record {
            at_most = omega (arith, h.unfinished);
            not_yet = λ e. ground (arith, e, h.silent);
          };
          queue = h.queue;
        })
        refl
  connect-AtRest v a (connected n) c h = greet-AtRest n a a.send_start _ (record {
    connection = ap (◌∷◌ n) h.connection;
    microphone = h.microphone;
    unfinished = h.unfinished;
    silent = h.silent;
    queue = h.queue;
  })

  -- A phase that `Start` accepts is none in which something is open.
  startable_not_listening : (s : Phase) → startable s ≡ true → is_listening s ≡ false
  startable_not_listening s h = ground (arith, h)

  nothing_open : {c : Controller W} → AtRest c → is_listening c.phase ≡ false → Holds none false c
  nothing_open {c = c} r quiet =
      let gone : c.session ≡ none = ground (arith, r.session, quiet) in
      record {
        connection = r.connection ∙ ap session_list gone;
        microphone = r.microphone ∙ quiet;
        once = r.once;
        queue = r.queue;
      }

  pub start-AtRest :
      (v : Text) (l : Language) (d : Text) (a : StartAnswers) (c : Controller W)
      → AtRest c
      → AtRest (start p v l d a c).0
  unfolding start
  start-AtRest v l d a c r =
      if-AtRest (startable c.phase) _ _
        (λ h. connect-AtRest v a a.dial _ (
          report-Fresh l a.progress
            (begin-Fresh l d c (nothing_open r (startable_not_listening c.phase h)))))
        (λ _. r)
