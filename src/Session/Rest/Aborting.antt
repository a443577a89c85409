-- ===== src/Session/Rest/Aborting.antt =====
-- `Abort`, and `watchFocus`, which calls it.
use local_dictation.Prelude.{
  ℕ, Bool, true, false, Option, none, some, if◌then◌else◌, ◌≡◌, refl, arith,
}
use local_dictation.Text.{Text, is_empty, beq}
use local_dictation.Input.Platform.{Platform}
use local_dictation.Input.Composer.{drop_partial}
use local_dictation.Session.Phase.{idle}
use local_dictation.Session.Controller.{
  Controller, microphone_off, is_listening, is_idle, tell, act, compose, cancel, close_now, abort,
  compare_window, look, poll_focus, moved,
}
use local_dictation.Session.Quiet.{publish-Quiet}
use local_dictation.Session.Rest.{connections, microphone_open, AtRest}
use local_dictation.Session.Rest.Steps.{
  Quiet-AtRest, Holds, AtRest-Holds, closed_Holds, cancel-Holds, settled_AtRest, if_rest,
}

module _ {W : Type 0} (p : Platform W) where
  hung_up : (o : Option ℕ) (c : Controller W) → Holds o false c → Holds none false (close_now p o c)
  hung_up none c h = h
  hung_up (some n) c h = closed_Holds n h

  hung_up_cancelled :
      (o : Option ℕ) (c : Controller W)
      → (c.has_context ≡ true → c.is_cancelled ≡ true)
      → (close_now p o c).has_context ≡ true
      → (close_now p o c).is_cancelled ≡ true
  hung_up_cancelled none c h = h
  hung_up_cancelled (some n) c h = h

  silenced :
      {o : Option ℕ} {m : Bool} (c : Controller W)
      → Holds o m c
      → Holds o false (act microphone_off c)
  unfolding connections microphone_open
  silenced c h = record {
    connection = h.connection;
    microphone = refl;
    once = record { at_most = h.once.at_most; not_yet = h.once.not_yet };
    queue = h.queue;
  }

  aborted-AtRest :
      (reason : Text) (c : Controller W)
      → Holds c.session false c
      → (c.has_context ≡ true → c.is_cancelled ≡ true)
      → AtRest (
          tell idle reason none c.language
            (record (compose (drop_partial p) (close_now p c.session c)) {
              phase = idle;
              session = none;
            }))
  aborted-AtRest reason c h e =
      let h' = hung_up c.session c h in
      Quiet-AtRest (publish-Quiet _ _) (
        settled_AtRest refl refl refl (hung_up_cancelled c.session c e) (record {
          connection = h'.connection;
          microphone = h'.microphone;
          once = record { at_most = h'.once.at_most; not_yet = h'.once.not_yet };
          queue = h'.queue;
        }))

  abort_open :
      (reason : Text) (b : Bool) (c : Controller W)
      → c.has_context ≡ b
      → Holds c.session false c
      → AtRest (
          let c' = if b then cancel c else c in
          tell idle reason none c'.language
            (record (compose (drop_partial p) (close_now p c'.session c')) {
              phase = idle;
              session = none;
            }))
  abort_open reason true c e h = aborted-AtRest reason (cancel c) (cancel-Holds h) (λ _. refl)
  abort_open reason false c e h = aborted-AtRest reason c h (λ k. ground (arith, e, k))

  pub abort-AtRest : (reason : Text) (c : Controller W) → AtRest c → AtRest (abort p reason c)
  unfolding abort
  abort-AtRest reason c r =
      if_rest (is_idle p c.phase) c _ r
        (abort_open reason c.has_context (act microphone_off c) refl (silenced c (AtRest-Holds r)))

  compare-AtRest :
      (origin : Text) (w : Option Text) (c : Controller W)
      → AtRest c
      → AtRest (compare_window p origin w c)
  compare-AtRest origin none c r = r
  compare-AtRest origin (some w) c r =
      if_rest (is_empty w) c _ r (if_rest (beq w origin) c _ r (abort-AtRest (moved p) c r))

  look-AtRest : (o w : Option Text) (c : Controller W) → AtRest c → AtRest (look p o w c)
  look-AtRest none w c r = r
  look-AtRest (some origin) w c r =
      if_rest (is_listening c.phase) _ _ (compare-AtRest origin w c r) (record {
        phase = r.phase;
        microphone = r.microphone;
        session = r.session;
        connection = r.connection;
        cancelled = r.cancelled;
        once = record { at_most = r.once.at_most; not_yet = r.once.not_yet };
        queue = r.queue;
      })

  pub poll-AtRest : (w : Option Text) (c : Controller W) → AtRest c → AtRest (poll_focus p w c)
  unfolding poll_focus
  poll-AtRest w c r = look-AtRest c.watching w c r
