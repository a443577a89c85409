-- ===== src/Session/Quiet.antt =====
-- What the steps that neither open nor close anything leave alone: `publish`, `consume` and the
-- helpers of the controller's calls.
use local_dictation.Prelude.{
  if◌then◌else◌, ◌≤◌, ◌∙◌, refl, length, Bool, true, false, List, [], ◌∷◌, Option, none, some, ◌≡◌,
  arith, length-append,
}
use local_dictation.Text.{Text}
use local_dictation.Protocol.{Language, ServerEvent, ready, transcript, error, closed, ServerError}
use local_dictation.Input.Platform.{Platform}
use local_dictation.Input.Composer.{State, Error, apply, drop_partial}
use local_dictation.Session.Controller.{
  Controller, Update, publish, capacity, report_progress, handle_server_error, consume, receive,
  receive_all, compose, events_over, disconnect, end_consume, applied,
}

-- The channel of the session is closed at most once, and not while events are read.
pub record Once {W : Type 0} (c : Controller W) : Type 0 where
  pub at_most : c.finished ≤ 1
  pub not_yet : c.consuming ≡ true → c.finished ≡ 0

pub record Quiet {W : Type 0} (c d : Controller W) : Type 0 where
  pub same_phase : d.phase ≡ c.phase
  pub same_session : d.session ≡ c.session
  pub same_language : d.language ≡ c.language
  pub same_device : d.device_id ≡ c.device_id
  pub same_context : d.has_context ≡ c.has_context
  pub same_cancelled : d.is_cancelled ≡ c.is_cancelled
  pub same_log : d.log ≡ c.log
  pub bounded : length c.updates ≤ capacity → length d.updates ≤ capacity
  pub once : Once c → Once d

module _ {W : Type 0} where
  pub Quiet-trans : {c d e : Controller W} → Quiet c d → Quiet d e → Quiet c e
  Quiet-trans p q = record {
    same_phase = q.same_phase ∙ p.same_phase;
    same_session = q.same_session ∙ p.same_session;
    same_language = q.same_language ∙ p.same_language;
    same_device = q.same_device ∙ p.same_device;
    same_context = q.same_context ∙ p.same_context;
    same_cancelled = q.same_cancelled ∙ p.same_cancelled;
    same_log = q.same_log ∙ p.same_log;
    bounded = λ h. q.bounded (p.bounded h);
    once = λ h. q.once (p.once h);
  }

  pub publish-Quiet : (u : Update) (c : Controller W) → Quiet c (publish u c)
  unfolding publish
  publish-Quiet u c = record {
    same_phase = ground arith;
    same_session = ground arith;
    same_language = ground arith;
    same_device = ground arith;
    same_context = ground arith;
    same_cancelled = ground arith;
    same_log = ground arith;
    bounded = λ h. ground (arith, length-append c.updates (u ∷ []));
    once = λ h. record { at_most = ground (arith, h.at_most); not_yet = ground (arith, h.not_yet) };
  }

  pub rewritten-Quiet : (s : State W) (c : Controller W) → Quiet c (record c { text = s })
  rewritten-Quiet s c = record {
    same_phase = refl;
    same_session = refl;
    same_language = refl;
    same_device = refl;
    same_context = refl;
    same_cancelled = refl;
    same_log = refl;
    bounded = λ h. h;
    once = λ h. record { at_most = h.at_most; not_yet = h.not_yet };
  }

  pub ended-Quiet : (c : Controller W) → c.consuming ≡ true → Quiet c (end_consume c)
  ended-Quiet c e = record {
    same_phase = refl;
    same_session = refl;
    same_language = refl;
    same_device = refl;
    same_context = refl;
    same_cancelled = refl;
    same_log = refl;
    bounded = λ h. h;
    once = λ h. record { at_most = ground (arith, h.not_yet e); not_yet = ground arith };
  }

  publish-consuming : (u : Update) (c : Controller W) → (publish u c).consuming ≡ c.consuming
  unfolding publish
  publish-consuming u c = ground arith

  pub report-Quiet :
      (l : Language) (lines : List Text) (c : Controller W) → Quiet c (report_progress l lines c)
  unfolding report_progress
  report-Quiet l [] c = rewritten-Quiet c.text c
  report-Quiet l (line ∷ lines) c = Quiet-trans (publish-Quiet _ c) (report-Quiet l lines _)

module _ {W : Type 0} (p : Platform W) where
  dropped-Quiet :
      (b : Bool) (c : Controller W)
      → Quiet c (if b then compose (drop_partial p) c else c)
        × ((if b then compose (drop_partial p) c else c).consuming ≡ c.consuming)
  dropped-Quiet true c = (rewritten-Quiet _ c, refl)
  dropped-Quiet false c = (rewritten-Quiet c.text c, refl)

  server_error-Quiet :
      (e : ServerError) (c : Controller W)
      → Quiet c (handle_server_error p e c) × ((handle_server_error p e c).consuming ≡ c.consuming)
  unfolding handle_server_error
  server_error-Quiet e c =
      let (q, same) = dropped-Quiet e.fatal c in
      (Quiet-trans q (publish-Quiet _ _), publish-consuming _ _ ∙ same)

  applied-Quiet : (r : State W × Option Error) (c : Controller W) → Quiet c (applied p r c)
  applied-Quiet (s, none) c = rewritten-Quiet s c
  applied-Quiet (s, some e) c = Quiet-trans (rewritten-Quiet s c) (publish-Quiet _ _)

  ended_if-Quiet :
      (b : Bool) (c : Controller W) → c.consuming ≡ true → Quiet c (if b then end_consume c else c)
  ended_if-Quiet true c h = ended-Quiet c h
  ended_if-Quiet false c h = rewritten-Quiet c.text c

  consume-Quiet :
      (e : ServerEvent) (c : Controller W) → c.consuming ≡ true → Quiet c (consume p e c)
  unfolding consume
  consume-Quiet (transcript t) c h = applied-Quiet (apply p t c.text) c
  consume-Quiet (error e) c h =
      let (q, same) = server_error-Quiet e c in Quiet-trans q (ended_if-Quiet e.fatal _ (same ∙ h))
  consume-Quiet (closed r) c h = ended-Quiet c h
  consume-Quiet (ready r) c h = rewritten-Quiet c.text c

  while_consuming :
      (f : Controller W → Controller W) (c : Controller W) (b : Bool)
      → (b ≡ true → Quiet c (f c))
      → Quiet c (if b then f c else c)
  while_consuming f c true q = q refl
  while_consuming f c false q = rewritten-Quiet c.text c

  pub receive-Quiet : (e : ServerEvent) (c : Controller W) → Quiet c (receive p e c)
  unfolding receive
  receive-Quiet e c = while_consuming (consume p e) c c.consuming (consume-Quiet e c)

  pub receive_all-Quiet : (es : List ServerEvent) (c : Controller W) → Quiet c (receive_all p es c)
  unfolding receive_all
  receive_all-Quiet [] c = rewritten-Quiet c.text c
  receive_all-Quiet (e ∷ es) c =
      Quiet-trans (receive-Quiet e c) (receive_all-Quiet es (receive p e c))

  lost-Quiet :
      (u : Update) (c : Controller W) (b : Bool)
      → c.consuming ≡ true
      → Quiet c (if b then end_consume c else end_consume (publish u (compose (drop_partial p) c)))
  lost-Quiet u c true h = ended-Quiet c h
  lost-Quiet u c false h =
      Quiet-trans (rewritten-Quiet _ c)
        (Quiet-trans (publish-Quiet u _) (ended-Quiet _ (publish-consuming u _ ∙ h)))

  over-Quiet :
      (err : Option Text) (c : Controller W) → c.consuming ≡ true → Quiet c (events_over p err c)
  unfolding events_over
  over-Quiet none c h = ended-Quiet c h
  over-Quiet (some e) c h = lost-Quiet _ c c.is_cancelled h

  pub disconnect-Quiet : (err : Option Text) (c : Controller W) → Quiet c (disconnect p err c)
  unfolding disconnect
  disconnect-Quiet err c = while_consuming (events_over p err) c c.consuming (over-Quiet err c)
