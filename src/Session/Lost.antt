-- ===== src/Session/Lost.antt =====
-- What the controller does with a connection that is lost, and with events that come after an abort.
use local_dictation.Prelude.{
  Bool, true, false, [], ◌∷◌, ◌++◌, Option, none, some, if◌then◌else◌, ◌≡◌, ◌<◌, refl, ap, ◌∙◌,
  arith, if_cases, length, ◌+◌, ℕ,
}
use local_dictation.Text.{Text, codes}
use local_dictation.Protocol.{Language, Transcript, transcript}
use local_dictation.Input.Platform.{Platform}
use local_dictation.Input.Composer.{State, Error, apply, drop_partial}
use local_dictation.Session.Phase.{idle, listening, failed}
use local_dictation.Session.Controller.{
  Controller, Update, plain, capacity, publish, compose, cancel, close_now, disconnect, events_over,
  StartAnswers, StopAnswers, startable, is_listening, busy, start, stop, toggle, receive, consume,
  applied, abort, is_idle, act, microphone_off, tell,
}
use local_dictation.Session.Quiet.{disconnect-Quiet}

module _ {W : Type 0} where
  publish_room :
      (u : Update) (c : Controller W)
      → length c.updates < capacity
      → (publish u c).updates ≡ c.updates ++ u ∷ []
  unfolding publish
  publish_room u c h = ground arith

  publish-consuming : (u : Update) (c : Controller W) → (publish u c).consuming ≡ c.consuming
  unfolding publish
  publish-consuming u c = ground arith

  pub publish-text : (u : Update) (c : Controller W) → (publish u c).text ≡ c.text
  unfolding publish
  publish-text u c = ground arith

if_true {ℓ} : {A : Type ℓ} (b : Bool) (x y : A) → b ≡ true → (if b then x else y) ≡ x
if_true b x y h = if_cases (λ z. z ≡ x) b x y (λ _. refl) (λ e. absurd (ground (arith, h, e)))

if_false {ℓ} : {A : Type ℓ} (b : Bool) (x y : A) → b ≡ false → (if b then x else y) ≡ y
if_false b x y h = if_cases (λ z. z ≡ y) b x y (λ e. absurd (ground (arith, h, e))) (λ _. refl)

module _ {W : Type 0} (p : Platform W) where
  abbrev pub lost_update : Text → Controller W → Update
  lost_update e c = record {
    phase = failed;
    detail = codes "The connection to the server dropped. Text confirmed so far was kept.";
    err = some (plain e);
    language = c.language;
  }

  lost_updates :
      (e : Text) (c : Controller W) (b d : Bool)
      → b ≡ true
      → d ≡ false
      → length c.updates < capacity
      → (if b
          then (if d
              then record c { consuming = false; finished = c.finished + 1 }
              else let c' = publish (lost_update e c) (compose (drop_partial p) c) in
                record c' { consuming = false; finished = c'.finished + 1 })
          else c).updates
        ≡ c.updates ++ lost_update e c ∷ []
  lost_updates e c true false b d h = publish_room _ _ h
  lost_updates e c true true b d h = absurd (ground (arith, d))
  lost_updates e c false d b f h = absurd (ground (arith, b))

  start_busy :
      (v : Text) (l : Language) (d : Text) (a : StartAnswers) (c : Controller W)
      → c.phase ≡ listening
      → start p v l d a c ≡ (c, some busy)
  unfolding start
  start_busy v l d a c h =
      let no : startable c.phase ≡ false = ap startable h in if_false (startable c.phase) _ _ no

  toggle_stops :
      (v : Text) (l : Language) (d : Text) (a : StartAnswers) (b : StopAnswers) (c : Controller W)
      → c.phase ≡ listening
      → toggle p v l d a b c ≡ stop p b c
  unfolding toggle
  toggle_stops v l d a b c h =
      if_false (startable c.phase) _ _ (ap startable h)
      ∙ if_true (is_listening c.phase) _ _ (ap is_listening h)

  -- When the connection drops while `consume` reads in `Listening`, and there is room for the update, the
  -- window is told `Error`, in which a session may be started; but the controller still listens, and the
  -- microphone stays open: `Start` says that it is busy, and `Toggle` stops the session that is gone.
  pub dropped_then_busy :
      (e v : Text) (l : Language) (d : Text) (a : StartAnswers) (b : StopAnswers) (c : Controller W)
      → c.phase ≡ listening
      → c.consuming ≡ true
      → c.is_cancelled ≡ false
      → length c.updates < capacity
      → let gone = disconnect p (some e) c in
        (gone.updates ≡ c.updates ++ lost_update e c ∷ [])
        × (gone.log ≡ c.log)
        × (start p v l d a gone ≡ (gone, some busy))
        × (toggle p v l d a b gone ≡ stop p b gone)
  unfolding disconnect events_over
  dropped_then_busy e v l d a b c listens reading live room =
      let q = disconnect-Quiet p (some e) c in
      let still = q.same_phase ∙ listens in
      (
        lost_updates e c c.consuming c.is_cancelled reading live room,
        q.same_log,
        start_busy v l d a (disconnect p (some e) c) still,
        toggle_stops v l d a b (disconnect p (some e) c) still,
      )

  cut : Text → Controller W → Controller W
  cut reason c =
      tell idle reason none c.language
        (record (compose (drop_partial p) (close_now p c.session c)) {
          phase = idle;
          session = none;
        })

  closing :
      (o : Option ℕ) (c : Controller W)
      → ((close_now p o c).consuming ≡ c.consuming) × ((close_now p o c).text ≡ c.text)
  closing none c = (refl, refl)
  closing (some n) c = (refl, refl)

  cut_lem :
      (reason : Text) (c : Controller W)
      → ((cut reason c).consuming ≡ c.consuming) × ((cut reason c).text ≡ (drop_partial p c.text).0)
  unfolding cut
  cut_lem reason c =
      let (reading, same) = closing c.session c in
      (publish-consuming _ _ ∙ reading, publish-text _ _ ∙ ap (λ s. (drop_partial p s).0) same)

  cancelling :
      (reason : Text) (b : Bool) (c : Controller W)
      → ((cut reason (if b then cancel c else c)).consuming ≡ c.consuming)
        × ((cut reason (if b then cancel c else c)).text ≡ (drop_partial p c.text).0)
  cancelling reason true c = cut_lem reason (cancel c)
  cancelling reason false c = cut_lem reason c

  pub aborting :
      (reason : Text) (c : Controller W)
      → is_idle p c.phase ≡ false
      → ((abort p reason c).consuming ≡ c.consuming)
        × ((abort p reason c).text ≡ (drop_partial p c.text).0)
  unfolding abort cut
  aborting reason c h = chosen (is_idle p c.phase) h
    where
      chosen :
          (b : Bool)
          → b ≡ false
          → let d =
              if b
              then c
              else cut reason
                  (if c.has_context then cancel (act microphone_off c) else act microphone_off c) in
            (d.consuming ≡ c.consuming) × (d.text ≡ (drop_partial p c.text).0)
      chosen true e = absurd (ground (arith, e))
      chosen false e = cancelling reason c.has_context (act microphone_off c)

  heard :
      (t : Transcript) (d : Controller W)
      → d.consuming ≡ true
      → (receive p (transcript t) d).text ≡ (apply p t d.text).0
  unfolding receive consume
  heard t d h = reading d.consuming h
    where
      told : (r : State W × Option Error) → (applied p r d).text ≡ r.0
      told (s, none) = refl
      told (s, some e) = publish-text _ _

      reading :
          (b : Bool)
          → b ≡ true
          → (if b then applied p (apply p t d.text) d else d).text ≡ (apply p t d.text).0
      reading true e = told (apply p t d.text)
      reading false e = absurd (ground (arith, e))

  -- `Abort` drops the provisional text and does not stop `consume`: a transcript that it still finds in
  -- the channel afterwards is applied as any other.
  pub abort_then_transcript :
      (reason : Text) (t : Transcript) (c : Controller W)
      → is_idle p c.phase ≡ false
      → c.consuming ≡ true
      → (receive p (transcript t) (abort p reason c)).text ≡ (apply p t (drop_partial p c.text).0).0
  abort_then_transcript reason t c running reading =
      let (still, dropped) = aborting reason c running in
      heard t (abort p reason c) (still ∙ reading) ∙ ap (λ s. (apply p t s).0) dropped
