-- ===== src/Session/Rest/Stopping.antt =====
-- `Stop`, on each of its branches.
use local_dictation.Prelude.{
  ℕ, Bool, true, false, Option, none, some, is_some, if◌then◌else◌, ◌≡◌, ◌⊎◌, refl, ap, ◌∙◌, inl,
  inr, arith,
}
use local_dictation.Text.{Text}
use local_dictation.Input.Platform.{Platform}
use local_dictation.Input.Composer.{State, Error, finish}
use local_dictation.Session.Phase.{idle, finalizing, failed}
use local_dictation.Session.Controller.{
  Controller, closed_down, microphone_off, Update, is_listening, publish, act, cancel, StopAnswers,
  Ending, in_time, timed_out, finished_with, settle, finish_session, wait, drain, muted,
  stop_session, stop, ended_with,
}
use local_dictation.Session.Quiet.{
  publish-Quiet, rewritten-Quiet, receive_all-Quiet, disconnect-Quiet,
}
use local_dictation.Session.Rest.{remove, connections, microphone_open, AtRest}
use local_dictation.Session.Rest.Steps.{
  Quiet-AtRest, remove_only, Holds, Quiet-Holds, closed_Holds, cancel-Holds, settled_AtRest,
  if-AtRest, publish-Holds,
}

module _ {W : Type 0} (p : Platform W) where
  -- The connection, or nothing, is open before the session is closed down.
  abbrev MaybeOpen : ℕ → Controller W → Type 0
  MaybeOpen n c = Holds (some n) false c ⊎ Holds none false c

  down :
      (n : ℕ) (c : Controller W) (s : State W)
      → MaybeOpen n c
      → Holds none false (record (act (closed_down n) c) { text = s })
  unfolding connections microphone_open
  down n c s (inl h) = record {
    connection = ap (remove n) h.connection ∙ remove_only n;
    microphone = h.microphone;
    once = record { at_most = h.once.at_most; not_yet = h.once.not_yet };
    queue = h.queue;
  }
  down n c s (inr h) = record {
    connection = ap (remove n) h.connection;
    microphone = h.microphone;
    once = record { at_most = h.once.at_most; not_yet = h.once.not_yet };
    queue = h.queue;
  }

  rewritten_open :
      (n : ℕ) (c : Controller W) (s : State W) → MaybeOpen n c → MaybeOpen n (record c { text = s })
  rewritten_open n c s (inl h) = inl (Quiet-Holds (rewritten-Quiet s c) h)
  rewritten_open n c s (inr h) = inr (Quiet-Holds (rewritten-Quiet s c) h)

  published_open :
      (n : ℕ) (c : Controller W) (u : Update) → MaybeOpen n c → MaybeOpen n (publish u c)
  published_open n c u (inl h) = inl (publish-Holds u h)
  published_open n c u (inr h) = inr (publish-Holds u h)

  finished-Holds :
      (n : ℕ) (r : State W × Option Error) (c : Controller W)
      → MaybeOpen n c
      → Holds none false (finished_with p n r c)
        × ((finished_with p n r c).is_cancelled ≡ c.is_cancelled)
  finished-Holds n (s, none) c h = (down n c s h, refl)
  finished-Holds n (s, some e) c h =
      let h' = published_open n (record c { text = s }) _ (rewritten_open n c s h) in
      (down n _ _ h', (publish-Quiet _ (record c { text = s })).same_cancelled)

  settle-AtRest :
      (cause : Option Text) (c : Controller W)
      → Holds none false c
      → c.is_cancelled ≡ true
      → AtRest (settle p cause c)
  settle-AtRest none c h e = Quiet-AtRest (publish-Quiet _ _) (
      settled_AtRest {c = record c { session = none; phase = idle }} refl refl refl (λ _. e)
        (record {
          connection = h.connection;
          microphone = h.microphone;
          once = record { at_most = h.once.at_most; not_yet = h.once.not_yet };
          queue = h.queue;
        }))
  settle-AtRest (some m) c h e = Quiet-AtRest (publish-Quiet _ _) (
      settled_AtRest {c = record c { session = none; phase = failed }} refl refl refl (λ _. e)
        (record {
          connection = h.connection;
          microphone = h.microphone;
          once = record { at_most = h.once.at_most; not_yet = h.once.not_yet };
          queue = h.queue;
        }))

  finish-AtRest :
      (n : ℕ) (cause : Option Text) (c : Controller W)
      → MaybeOpen n c
      → c.is_cancelled ≡ true
      → AtRest (finish_session p n cause c)
  unfolding finish_session
  finish-AtRest n cause c h e =
      let (h', same) = finished-Holds n (finish p c.text) c h in settle-AtRest cause _ h' (same ∙ e)

  cancelled_open : (n : ℕ) (c : Controller W) → MaybeOpen n c → MaybeOpen n (cancel c)
  cancelled_open n c (inl h) = inl (cancel-Holds h)
  cancelled_open n c (inr h) = inr (cancel-Holds h)

  if_open :
      (n : ℕ) (b : Bool) {c d : Controller W}
      → MaybeOpen n c
      → MaybeOpen n d
      → MaybeOpen n (if b then c else d)
  if_open n true h k = h
  if_open n false h k = k

  wait_open :
      (n : ℕ) (e : Ending) (c : Controller W) → Holds (some n) false c → MaybeOpen n (wait p n e c)
  unfolding wait
  wait_open n (in_time e) c h = inl (Quiet-Holds (disconnect-Quiet p e c) h)
  wait_open n (timed_out e) c h =
      if_open n c.consuming (inr (closed_Holds n (publish-Holds _ h))) (inl h)

  drain-AtRest :
      (n : ℕ) (a : StopAnswers) (r : Option Text) (c : Controller W)
      → Holds (some n) false c
      → AtRest (drain p n a r c).0
  unfolding drain
  drain-AtRest n a none c h =
      finish-AtRest n none _
        (cancelled_open n _
          (wait_open n a.ending _ (Quiet-Holds (receive_all-Quiet p a.drained c) h)))
        refl
  drain-AtRest n a (some e) c h =
      finish-AtRest n _ _
        (cancelled_open n _ (
          inr (
            Quiet-Holds (disconnect-Quiet p (ended_with p a.ending) _)
              (Quiet-Holds (receive_all-Quiet p a.drained _) (closed_Holds n h)))))
        refl

  muted-Holds :
      (r : Option Text) {o : Option ℕ} (c : Controller W)
      → Holds o true c
      → Holds o false (muted p r c)
  unfolding connections microphone_open
  muted-Holds none c h = record {
    connection = h.connection;
    microphone = refl;
    once = record { at_most = h.once.at_most; not_yet = h.once.not_yet };
    queue = h.queue;
  }
  muted-Holds (some e) {o} c h =
      publish-Holds {o = o} {m = false} {c = act microphone_off c} _ (record {
        connection = h.connection;
        microphone = refl;
        once = record { at_most = h.once.at_most; not_yet = h.once.not_yet };
        queue = h.queue;
      })

  stop_session-AtRest :
      (o : Option ℕ) (a : StopAnswers) (c : Controller W)
      → is_some o ≡ true
      → Holds o false c
      → AtRest (stop_session p o a c).0
  unfolding connections microphone_open
  stop_session-AtRest none a c e h = absurd (ground (arith, e))
  stop_session-AtRest (some n) a c e h = drain-AtRest n a a.send_stop _ (record {
    connection = h.connection;
    microphone = h.microphone;
    once = record { at_most = h.once.at_most; not_yet = h.once.not_yet };
    queue = h.queue;
  })

  listening-Holds :
      {c : Controller W}
      → AtRest c
      → is_listening c.phase ≡ true
      → Holds c.session true (record c { phase = finalizing })
  listening-Holds r h = record {
    connection = r.connection;
    microphone = r.microphone ∙ h;
    once = record { at_most = r.once.at_most; not_yet = r.once.not_yet };
    queue = r.queue;
  }

  pub stop-AtRest : (a : StopAnswers) (c : Controller W) → AtRest c → AtRest (stop p a c).0
  unfolding stop
  stop-AtRest a c r =
      if-AtRest (is_listening c.phase) _ _
        (λ h.
          stop_session-AtRest c.session a _ (r.session ∙ h)
            (muted-Holds a.microphone _ (publish-Holds _ (listening-Holds r h))))
        (λ _. r)
