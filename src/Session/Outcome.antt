-- ===== src/Session/Outcome.antt =====
-- What `Start` and `Stop` do, in order, and how they end.
use local_dictation.Prelude.{
  ℕ, Bool, true, false, List, [], ◌∷◌, ◌++◌, Option, none, some, if◌then◌else◌, ◌≡◌, ◌↔◌, refl, ap,
  ◌∙◌, arith, All,
}
use local_dictation.Text.{Text}
use local_dictation.Protocol.{Language, Ready, ready, transcript, error, closed, new_start}
use local_dictation.Input.Platform.{Platform}
use local_dictation.Input.Composer.{State, drop_partial}
use local_dictation.Session.Phase.{connecting, listening, failed}
use local_dictation.Session.Controller.{
  Controller, Action, dialled, start_sent, microphone_on, context_cancelled, closed_now,
  StartAnswers, Dialled, unreachable, connected, Arrival, event, end_of_events, context_done,
  Result, problem, await_ready, startable, begin_start, report_progress, fail, plain, compose,
  capture, adopt, greet, connect, start, receive_all,
}
use local_dictation.Session.Lost.{publish-text}
use local_dictation.Session.Ended.{dropped_closed}
use local_dictation.Session.Quiet.{
  Quiet, Quiet-trans, rewritten-Quiet, publish-Quiet, receive_all-Quiet, report-Quiet,
}

-- An arrival that `awaitReady` passes over.
abbrev pub IsUneventful : Arrival → Type 0
IsUneventful (event (ready r)) = ⊥
IsUneventful (event (error e)) = ⊥
IsUneventful (event (transcript t)) = Unit
IsUneventful (event (closed c)) = Unit
IsUneventful (end_of_events e) = ⊥
IsUneventful (context_done e) = ⊥

-- A `ready` that nothing comes before but what is passed over.
pub record Acknowledged (arrivals : List Arrival) : Type 0 where
  pub before : List Arrival
  pub greeting : Ready
  pub rest : List Arrival
  pub split : arrivals ≡ before ++ event (ready greeting) ∷ rest
  pub uneventful : All IsUneventful before

later :
    {a : Arrival} {more : List Arrival}
    → IsUneventful a
    → Acknowledged more
    → Acknowledged (a ∷ more)
later {a = a} u h = record {
  before = a ∷ h.before;
  greeting = h.greeting;
  rest = h.rest;
  split = ap (◌∷◌ a) h.split;
  uneventful = (u, h.uneventful);
}

await-Acknowledged : (more : List Arrival) → await_ready more ≡ none → Acknowledged more
unfolding await_ready
await-Acknowledged [] h = absurd (ground (arith, h))
await-Acknowledged (event (ready r) ∷ more) h = record {
  before = [];
  greeting = r;
  rest = more;
  split = refl;
  uneventful = tt;
}
await-Acknowledged (event (error e) ∷ more) h = absurd (ground (arith, h))
await-Acknowledged (event (transcript t) ∷ more) h = later tt (await-Acknowledged more h)
await-Acknowledged (event (closed c) ∷ more) h = later tt (await-Acknowledged more h)
await-Acknowledged (end_of_events (some e) ∷ more) h = absurd (ground (arith, h))
await-Acknowledged (end_of_events none ∷ more) h = absurd (ground (arith, h))
await-Acknowledged (context_done e ∷ more) h = absurd (ground (arith, h))

passed :
    (before : List Arrival) (r : Ready) (rest : List Arrival)
    → All IsUneventful before
    → await_ready (before ++ event (ready r) ∷ rest) ≡ none
unfolding await_ready
passed [] r rest u = refl
passed (event (ready q) ∷ more) r rest (u, us) = absurd u
passed (event (error e) ∷ more) r rest (u, us) = absurd u
passed (event (transcript t) ∷ more) r rest (u, us) = passed more r rest us
passed (event (closed c) ∷ more) r rest (u, us) = passed more r rest us
passed (end_of_events e ∷ more) r rest (u, us) = absurd u
passed (context_done e ∷ more) r rest (u, us) = absurd u

-- `awaitReady` succeeds exactly when a `ready` arrives before any error, the end of the events, the end
-- of the context, or the end of the wait.
pub await_ready_iff : (more : List Arrival) → (await_ready more ≡ none) ↔ Acknowledged more
await_ready_iff more = (
  await-Acknowledged more,
  λ h. ap await_ready h.split ∙ passed h.before h.greeting h.rest h.uneventful,
)

-- The answers on which a session opens on the connection `n`.
pub record Opened (a : StartAnswers) (n : ℕ) : Type 0 where
  pub dialled : a.dial ≡ connected n
  pub sent : a.send_start ≡ none
  pub acknowledged : Acknowledged a.arrivals
  pub captured : a.microphone ≡ none

-- A start that succeeded: the session is that of the connection, and the log is what it leaves.
pub record Listens {W : Type 0} (n : ℕ) (log : List Action) (r : Result W) : Type 0 where
  pub result : r.1 ≡ none
  pub phase : r.0.phase ≡ listening
  pub session : r.0.session ≡ some n
  pub actions : r.0.log ≡ log

-- A start that failed with the error `e`.
pub record Fails {W : Type 0} (e : Text) (log : List Action) (r : Result W) : Type 0 where
  pub result : r.1 ≡ some (problem e)
  pub phase : r.0.phase ≡ failed
  pub session : r.0.session ≡ none
  pub closed : r.0.text.composer.composing ≡ false
  pub actions : r.0.log ≡ log

-- What the outside has seen after `SendStart`, the latest first.
abbrev pub sent_log : Text → Language → StartAnswers → ℕ → List Action → List Action
sent_log v l a n log = start_sent n (new_start a.session_id v l) ∷ dialled n ∷ log

-- The same, when the connection has been closed at once.
abbrev pub given_up : Text → Language → StartAnswers → ℕ → List Action → List Action
given_up v l a n log = context_cancelled ∷ closed_now n ∷ sent_log v l a n log

-- How `Start` ends, over the log it began with: the server is not reached, does not take `start`, does not
-- acknowledge, the microphone does not open, or the session opens. Only after an acknowledgement is the
-- microphone in the log.
pub data Outcome {W : Type 0} (v : Text) (l : Language) (d : Text) (a : StartAnswers)
    (log : List Action) (r : Result W) : Type 0 where
  unreached :
      (e : Text)
      → a.dial ≡ unreachable e
      → Fails e (context_cancelled ∷ log) r
      → Outcome v l d a log r
  unsent :
      (n : ℕ) (e : Text)
      → a.dial ≡ connected n
      → a.send_start ≡ some e
      → Fails e (given_up v l a n log) r
      → Outcome v l d a log r
  unacknowledged :
      (n : ℕ) (e : Text)
      → a.dial ≡ connected n
      → a.send_start ≡ none
      → await_ready a.arrivals ≡ some e
      → (Acknowledged a.arrivals → ⊥)
      → Fails e (given_up v l a n log) r
      → Outcome v l d a log r
  uncaptured :
      (n : ℕ) (e : Text)
      → a.dial ≡ connected n
      → a.send_start ≡ none
      → Acknowledged a.arrivals
      → a.microphone ≡ some e
      → Fails e (given_up v l a n log) r
      → Outcome v l d a log r
  opened :
      (n : ℕ)
      → Opened a n
      → Listens n (microphone_on d ∷ sent_log v l a n log) r
      → Outcome v l d a log r

module _ {W : Type 0} (p : Platform W) where
  fail-Fails : (m e : Text) (c : Controller W) → Fails e c.log (fail p m c, some (problem e))
  unfolding fail
  fail-Fails m e c =
      let q =
        publish-Quiet
          (record { phase = failed; detail = m; err = some (plain m); language = c.language })
          (record (compose (drop_partial p) c) { phase = failed; session = none }) in
      record {
        result = refl;
        phase = q.same_phase;
        session = q.same_session;
        closed =
            ap (λ (s : State W). s.composer.composing) (publish-text _ _) ∙ dropped_closed p c.text;
        actions = q.same_log;
      }

  -- The microphone is opened on a session that stands.
  listening-Listens :
      (n : ℕ) (a : StartAnswers) (c : Controller W)
      → c.session ≡ some n
      → Listens n (microphone_on c.device_id ∷ c.log) (capture p n a none c)
  unfolding capture
  listening-Listens n a c h =
      let q =
        publish-Quiet _ (record c { log = microphone_on c.device_id ∷ c.log; phase = listening }) in
      record {
        result = refl;
        phase = q.same_phase;
        session = q.same_session ∙ h;
        actions = q.same_log;
      }

  Fails-log : {e : Text} {k l : List Action} {r : Result W} → k ≡ l → Fails e k r → Fails e l r
  Fails-log same f = rw⁻¹ same f

  Listens-log :
      {n : ℕ} {d e : Text} {k l : List Action} {r : Result W}
      → d ≡ e
      → k ≡ l
      → Listens n (microphone_on d ∷ k) r
      → Listens n (microphone_on e ∷ l) r
  Listens-log same_device same_log t = rw⁻¹ (same_device, same_log) t

  module _ (v : Text) (a : StartAnswers) (n : ℕ) (reached : a.dial ≡ connected n)
      (c : Controller W) where
    abbrev Ended : Result W → Type 0
    Ended = Outcome v c.language c.device_id a c.log

    -- The controller after `SendStart`.
    abbrev sent : Controller W
    sent = record c { log = sent_log v c.language a n c.log }

    capture-Outcome :
        (m : Option Text)
        → a.send_start ≡ none
        → Acknowledged a.arrivals
        → a.microphone ≡ m
        → Ended (
            capture p n a m
              (receive_all p a.early (record sent { session = some n; consuming = true })))
    unfolding capture
    capture-Outcome (some e) s k h =
        let q = receive_all-Quiet p a.early (record sent { session = some n; consuming = true }) in
        uncaptured n e reached s k h (
          Fails-log (ap (λ (x : List Action). context_cancelled ∷ closed_now n ∷ x) q.same_log)
            (fail-Fails _ e _))
    capture-Outcome none s k h =
        let q = receive_all-Quiet p a.early (record sent { session = some n; consuming = true }) in
        opened n (record { dialled = reached; sent = s; acknowledged = k; captured = h })
          (Listens-log q.same_device q.same_log (
            listening-Listens n a
              (receive_all p a.early (record sent { session = some n; consuming = true }))
              q.same_session))

    adopt-Outcome :
        (m : Option Text)
        → a.send_start ≡ none
        → await_ready a.arrivals ≡ m
        → Ended (adopt p n a m sent)
    unfolding adopt
    adopt-Outcome (some e) s h =
        unacknowledged n e reached s h (λ k. ground (arith, h, (await_ready_iff a.arrivals).1 k))
          (fail-Fails _ e _)
    adopt-Outcome none s h = capture-Outcome a.microphone s ((await_ready_iff a.arrivals).0 h) refl

    greet-Outcome : (m : Option Text) → a.send_start ≡ m → Ended (greet p n a m sent)
    unfolding greet
    greet-Outcome (some e) h = unsent n e reached h (fail-Fails _ e _)
    greet-Outcome none h = adopt-Outcome (await_ready a.arrivals) h refl

  dial-Outcome :
      (v : Text) (a : StartAnswers) (o : Dialled) (c : Controller W)
      → a.dial ≡ o
      → Outcome v c.language c.device_id a c.log (connect p v a o c)
  unfolding connect
  dial-Outcome v a (unreachable e) c same = unreached e same (fail-Fails _ e _)
  dial-Outcome v a (connected n) c same = greet-Outcome v a n same c a.send_start refl

  -- What the server saw before the microphone was opened.
  begun :
      (l : Language) (d : Text) (lines : List Text) (c : Controller W)
      → Quiet
          (record c {
            phase = connecting;
            language = l;
            device_id = d;
            has_context = true;
            is_cancelled = false;
            finished = 0;
            consuming = false;
          })
          (report_progress l lines (begin_start l d c))
  unfolding begin_start
  begun l d lines c =
      Quiet-trans (publish-Quiet _ _) (Quiet-trans (rewritten-Quiet _ _) (report-Quiet l lines _))

  Outcome-same :
      {v : Text} {a : StartAnswers} {l m d e : Text} {j k : List Action} {r : Result W}
      → l ≡ m
      → d ≡ e
      → j ≡ k
      → Outcome v l d a j r
      → Outcome v m e a k r
  Outcome-same same_language same_device same_log o = rw⁻¹ (same_language, same_device, same_log) o

  Outcome-if :
      (b : Bool) {v : Text} {a : StartAnswers} {l d : Text} {k : List Action} (x y : Result W)
      → b ≡ true
      → Outcome v l d a k x
      → Outcome v l d a k (if b then x else y)
  Outcome-if true x y h o = o
  Outcome-if false x y h o = absurd (ground (arith, h))

  -- `Start` in `Idle` or `Error` opens the session exactly when the server is reached, takes the `start`
  -- message, answers `ready` before any error or end, and the microphone opens. It has then dialled,
  -- sent `start` in the chosen language, and after that opened the chosen microphone; the phase is
  -- `Listening`, with the session of that connection. Otherwise it returns the error of the first of
  -- these that failed, without having gone on to the next: the microphone is not opened before the
  -- acknowledgement. The phase is then `Error` with no session and no composition, and a connection that was
  -- made is closed.
  pub start-Outcome :
      (v : Text) (l : Language) (d : Text) (a : StartAnswers) (c : Controller W)
      → startable c.phase ≡ true
      → Outcome v l d a c.log (start p v l d a c)
  unfolding start
  start-Outcome v l d a c h =
      let q = begun l d a.progress c in
      Outcome-if (startable c.phase) _ _ h
        (Outcome-same q.same_language q.same_device q.same_log (dial-Outcome v a a.dial _ refl))
