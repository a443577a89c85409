-- ===== src/Session/Closing.antt =====
-- What `Stop` does, in order, and how it ends.
use local_dictation.Prelude.{
  ℕ, Bool, true, false, List, [], ◌∷◌, ◌++◌, Option, none, some, if◌then◌else◌, ◌≡◌, ◌⊎◌, refl, ap,
  ◌∙◌, inl, inr, arith,
}
use mathlib.Core.Path.{subst}
use local_dictation.Text.{Text, codes}
use local_dictation.Input.Platform.{Platform}
use local_dictation.Input.Composer.{State, Error, finish}
use local_dictation.Session.Phase.{Phase, idle, failed, finalizing}
use local_dictation.Session.Controller.{
  Controller, Action, stop_sent, closed_now, closed_down, microphone_off, context_cancelled,
  StopAnswers, Ending, in_time, timed_out, Result, Problem, problem, busy, is_listening, publish,
  receive_all, disconnect, finished_with, settle, finish_session, ended_with, wait, drain, muted,
  stop_session, stop, act, cancel,
}
use local_dictation.Session.Quiet.{
  Quiet, publish-Quiet, rewritten-Quiet, receive_all-Quiet, disconnect-Quiet,
}

-- The phase after `Stop`, and what it returns, by whether the `stop` message was sent.
abbrev pub stopped_phase : Option Text → Phase
stopped_phase none = idle
stopped_phase (some e) = failed

abbrev pub stopped_result : Option Text → Option Problem
stopped_result none = none
stopped_result (some e) = some (problem e)

-- A session on the connection `n` that was stopped: the microphone before the `stop` message, the
-- context after it, the connection last; it may have been closed at once where it did not end in time.
pub record Stopped {W : Type 0} (sent : Option Text) (n : ℕ) (log : List Action) (r : Result W)
    : Type 0 where
  pub result : r.1 ≡ stopped_result sent
  pub phase : r.0.phase ≡ stopped_phase sent
  pub session : r.0.session ≡ none
  pub late : List Action
  pub lateness : (late ≡ []) ⊎ (late ≡ closed_now n ∷ [])
  pub actions :
      r.0.log ≡ closed_down n ∷ context_cancelled ∷ late ++ stop_sent n ∷ microphone_off ∷ log

module _ {W : Type 0} (p : Platform W) where
  finished-log :
      (n : ℕ) (r : State W × Option Error) (c : Controller W)
      → (finished_with p n r c).log ≡ closed_down n ∷ c.log
  finished-log n (s, none) c = refl
  finished-log n (s, some e) c =
      ap (◌∷◌ (closed_down n)) (publish-Quiet _ (record c { text = s })).same_log

  settled :
      (cause : Option Text) (c : Controller W)
      → ((settle p cause c).phase ≡ stopped_phase cause)
        × ((settle p cause c).session ≡ none)
        × ((settle p cause c).log ≡ c.log)
  settled none c =
      let q = publish-Quiet _ (record c { session = none; phase = idle }) in
      (q.same_phase, q.same_session, q.same_log)
  settled (some e) c =
      let q = publish-Quiet _ (record c { session = none; phase = failed }) in
      (q.same_phase, q.same_session, q.same_log)

  -- What has been done to the connection when the wait is over.
  record Waited (n : ℕ) (log : List Action) (c : Controller W) : Type 0 where
    late : List Action
    lateness : (late ≡ []) ⊎ (late ≡ closed_now n ∷ [])
    actions : c.log ≡ late ++ log

  Waited-if :
      (n : ℕ) (log : List Action) (b : Bool) {c d : Controller W}
      → Waited n log c
      → Waited n log d
      → Waited n log (if b then c else d)
  Waited-if n log true h k = h
  Waited-if n log false h k = k

  in_time-Waited : (n : ℕ) {c d : Controller W} → Quiet c d → Waited n c.log d
  in_time-Waited n q = record { late = []; lateness = inl refl; actions = q.same_log }

  wait-Waited : (n : ℕ) (e : Ending) (c : Controller W) → Waited n c.log (wait p n e c)
  unfolding wait
  wait-Waited n (in_time e) c = in_time-Waited n (disconnect-Quiet p e c)
  wait-Waited n (timed_out e) c =
      Waited-if n c.log c.consuming
        (record {
          late = closed_now n ∷ [];
          lateness = inr refl;
          actions = ap (◌∷◌ (closed_now n)) (publish-Quiet _ c).same_log;
        })
        (in_time-Waited n (rewritten-Quiet c.text c))

  finish-Stopped :
      (n : ℕ) (cause : Option Text) (log : List Action) (c : Controller W)
      → Waited n (stop_sent n ∷ microphone_off ∷ log) c
      → (late : List Action) × ((late ≡ []) ⊎ (late ≡ closed_now n ∷ []))
        × ((finish_session p n cause (cancel c)).phase ≡ stopped_phase cause)
        × ((finish_session p n cause (cancel c)).session ≡ none)
        × ((finish_session p n cause (cancel c)).log
            ≡ closed_down n ∷ context_cancelled ∷ late ++ stop_sent n ∷ microphone_off ∷ log)
  unfolding finish_session
  finish-Stopped n cause log c w =
      let (phase, session, actions) =
        settled cause (finished_with p n (finish p c.text) (cancel c)) in
      (
        w.late,
        w.lateness,
        phase,
        session,
        actions
            ∙ finished-log n (finish p c.text) (cancel c)
            ∙ ap (λ l. closed_down n ∷ context_cancelled ∷ l) w.actions,
      )

  drain-Stopped :
      (n : ℕ) (a : StopAnswers) (sent : Option Text) (log : List Action) (c : Controller W)
      → c.log ≡ stop_sent n ∷ microphone_off ∷ log
      → Stopped sent n log (drain p n a sent c)
  unfolding drain
  drain-Stopped n a none log c e =
      let q = receive_all-Quiet p a.drained c in
      let w = wait-Waited n a.ending (receive_all p a.drained c) in
      let (late, lateness, phase, session, actions) =
        finish-Stopped n none log (wait p n a.ending (receive_all p a.drained c)) (record {
          late = w.late;
          lateness = w.lateness;
          actions = w.actions ∙ ap (λ l. w.late ++ l) (q.same_log ∙ e);
        }) in
      record {
        result = refl;
        phase = phase;
        session = session;
        late = late;
        lateness = lateness;
        actions = actions;
      }
  drain-Stopped n a (some m) log c e =
      let q = receive_all-Quiet p a.drained (act (closed_now n) c) in
      let (late, lateness, phase, session, actions) =
        finish-Stopped n _ log
          (disconnect p (ended_with p a.ending) (receive_all p a.drained (act (closed_now n) c)))
          (record {
            late = closed_now n ∷ [];
            lateness = inr refl;
            actions = (disconnect-Quiet p _ _).same_log ∙ q.same_log ∙ ap (◌∷◌ (closed_now n)) e;
          }) in
      record {
        result = refl;
        phase = phase;
        session = session;
        late = late;
        lateness = lateness;
        actions = actions;
      }

  muted-log : (m : Option Text) (c : Controller W) → (muted p m c).log ≡ microphone_off ∷ c.log
  muted-log none c = refl
  muted-log (some e) c = (publish-Quiet _ (act microphone_off c)).same_log

  session-Stopped :
      (n : ℕ) (o : Option ℕ) (a : StopAnswers) (log : List Action) (c : Controller W)
      → o ≡ some n
      → c.log ≡ microphone_off ∷ log
      → Stopped a.send_stop n log (stop_session p o a c)
  session-Stopped n none a log c e h = absurd (ground (arith, e))
  session-Stopped n (some m) a log c e h =
      let same : m ≡ n = ground (arith, e) in
      subst (λ k. Stopped a.send_stop k log (drain p m a a.send_stop (act (stop_sent m) c))) same
        (drain-Stopped m a a.send_stop log _ (ap (◌∷◌ (stop_sent m)) h))

  -- `Stop` while listening closes the microphone, then sends `stop`, then waits for the events to end,
  -- then cancels the context and closes the connection; only where the message could not be sent or the
  -- events did not end in time does it drop the connection without waiting. It returns in `Idle` without
  -- an error when the message was sent, and in `Error` with that error when it was not; no session is
  -- left in either case, whatever the microphone, the events and the composer did.
  pub stop_outcome :
      (n : ℕ) (a : StopAnswers) (c : Controller W)
      → is_listening c.phase ≡ true
      → c.session ≡ some n
      → Stopped a.send_stop n c.log (stop p a c)
  unfolding stop
  stop_outcome n a c h e = chosen (is_listening c.phase) h
    where
      start : Controller W
      start =
          publish
            (record {
              phase = finalizing;
              detail = codes "Finishing the sentence…";
              err = none;
              language = c.language;
            })
            (record c { phase = finalizing })

      chosen :
          (b : Bool)
          → b ≡ true
          → Stopped a.send_stop n c.log (
              if b then stop_session p c.session a (muted p a.microphone start) else (c, some busy))
      chosen false k = absurd (ground (arith, k))
      chosen true k = session-Stopped n c.session a c.log _ e (
          muted-log a.microphone start
          ∙ ap (◌∷◌ microphone_off) (publish-Quiet _ (record c { phase = finalizing })).same_log)
