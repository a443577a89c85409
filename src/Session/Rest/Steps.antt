-- ===== src/Session/Rest/Steps.antt =====
-- The pieces that the calls of the controller are made of: what each leaves open.
use local_dictation.Prelude.{
  ℕ, ◌+◌, ◌≤◌, Bool, true, false, List, [], ◌∷◌, Option, none, some, is_some, if◌then◌else◌, ◌≡◌,
  refl, sym, ap, ◌∙◌, arith, length, length-append,
}
use local_dictation.Text.{Text}
use local_dictation.Protocol.{Language}
use local_dictation.Input.Platform.{Platform}
use local_dictation.Input.Composer.{State}
use local_dictation.Session.Phase.{connecting}
use local_dictation.Session.Controller.{
  Controller, closed_now, capacity, Update, is_listening, new, publish, act, cancel, begin_start,
  report_progress, fail, Result,
}
use local_dictation.Session.Quiet.{Once, Quiet, publish-Quiet}
use local_dictation.Session.Rest.{
  remove, connections, microphone_open, session_list, is_rest, AtRest,
}

module _ {W : Type 0} where
  pub Quiet-AtRest : {c d : Controller W} → Quiet c d → AtRest c → AtRest d
  Quiet-AtRest q r = record {
    phase = rw q.same_phase r.phase;
    microphone = rw (q.same_phase, q.same_log) r.microphone;
    session = rw (q.same_phase, q.same_session) r.session;
    connection = rw (q.same_session, q.same_log) r.connection;
    cancelled = rw (q.same_phase, q.same_context, q.same_cancelled) r.cancelled;
    once = q.once r.once;
    queue = q.bounded r.queue;
  }

  pub new-AtRest : (s : State W) → AtRest (new s)
  unfolding connections microphone_open
  new-AtRest s = record {
    phase = refl;
    microphone = refl;
    session = refl;
    connection = refl;
    cancelled = ground arith;
    once = record { at_most = omega arith; not_yet = ground arith };
    queue = omega arith;
  }

pub remove_only : (n : ℕ) → remove n (n ∷ []) ≡ []
remove_only n = ground arith

-- One step of a call: what is open, whatever the phase.
pub record Holds {W : Type 0} (open_ : Option ℕ) (mic : Bool) (c : Controller W) : Type 0 where
  pub connection : connections c.log ≡ session_list open_
  pub microphone : microphone_open c.log ≡ mic
  pub once : Once c
  pub queue : length c.updates ≤ capacity

-- Before `consume` runs.
pub record Fresh {W : Type 0} (open_ : Option ℕ) (c : Controller W) : Type 0 where
  pub connection : connections c.log ≡ session_list open_
  pub microphone : microphone_open c.log ≡ false
  pub unfinished : c.finished ≡ 0
  pub silent : c.consuming ≡ false
  pub queue : length c.updates ≤ capacity

module _ {W : Type 0} where
  pub AtRest-Holds : {c : Controller W} → AtRest c → Holds c.session (is_listening c.phase) c
  AtRest-Holds r = record {
    connection = r.connection;
    microphone = r.microphone;
    once = r.once;
    queue = r.queue;
  }

  pub Quiet-Holds :
      {o : Option ℕ} {m : Bool} {c d : Controller W} → Quiet c d → Holds o m c → Holds o m d
  Quiet-Holds q h = record {
    connection = rw q.same_log h.connection;
    microphone = rw q.same_log h.microphone;
    once = q.once h.once;
    queue = q.bounded h.queue;
  }

  publish-Fresh : {o : Option ℕ} {c : Controller W} (u : Update) → Fresh o c → Fresh o (publish u c)
  unfolding publish
  publish-Fresh {c = c} u h = record {
    connection = ground (arith, h.connection);
    microphone = ground (arith, h.microphone);
    unfinished = ground (arith, h.unfinished);
    silent = ground (arith, h.silent);
    queue = ground (arith, h.queue, length-append c.updates (u ∷ []));
  }

  pub begin-Fresh :
      (l : Language) (d : Text) (c : Controller W)
      → Holds none false c
      → Fresh none (begin_start l d c)
  unfolding begin_start
  begin-Fresh l d c h =
      let begun : Fresh none (record c {
        phase = connecting;
        language = l;
        device_id = d;
        has_context = true;
        is_cancelled = false;
        finished = 0;
        consuming = false;
      }) =
        record {
          connection = h.connection;
          microphone = h.microphone;
          unfinished = refl;
          silent = refl;
          queue = h.queue;
        } in
      let told = publish-Fresh _ begun in
      record {
        connection = told.connection;
        microphone = told.microphone;
        unfinished = told.unfinished;
        silent = told.silent;
        queue = told.queue;
      }

  pub report-Fresh :
      (l : Language) (lines : List Text) {o : Option ℕ} {c : Controller W}
      → Fresh o c
      → Fresh o (report_progress l lines c)
  unfolding report_progress
  report-Fresh l [] h = h
  report-Fresh l (line ∷ lines) h = report-Fresh l lines (publish-Fresh _ h)

  Fresh-Holds : {o : Option ℕ} {c : Controller W} → Fresh o c → Holds o false c
  Fresh-Holds h = record {
    connection = h.connection;
    microphone = h.microphone;
    once = record { at_most = omega (arith, h.unfinished); not_yet = λ e. h.unfinished };
    queue = h.queue;
  }

  pub closed-Fresh :
      (n : ℕ) {c : Controller W}
      → Fresh (some n) c
      → Holds none false (record (cancel (act (closed_now n) c)) { finished = c.finished + 1 })
  unfolding connections microphone_open
  closed-Fresh n {c = c} h = record {
    connection = ap (remove n) h.connection ∙ remove_only n;
    microphone = h.microphone;
    once = record {
      at_most = omega (arith, h.unfinished);
      not_yet = λ e. ground (arith, e, h.silent);
    };
    queue = h.queue;
  }

  pub closed_Holds :
      (n : ℕ) {m : Bool} {c : Controller W}
      → Holds (some n) m c
      → Holds none m (act (closed_now n) c)
  unfolding connections microphone_open
  closed_Holds n h = record {
    connection = ap (remove n) h.connection ∙ remove_only n;
    microphone = h.microphone;
    once = record { at_most = h.once.at_most; not_yet = h.once.not_yet };
    queue = h.queue;
  }

  pub cancel-Holds :
      {o : Option ℕ} {m : Bool} {c : Controller W} → Holds o m c → Holds o m (cancel c)
  unfolding connections microphone_open
  cancel-Holds h = record {
    connection = h.connection;
    microphone = h.microphone;
    once = record { at_most = h.once.at_most; not_yet = h.once.not_yet };
    queue = h.queue;
  }

  -- A phase between two calls in which nothing is open.
  pub settled_AtRest :
      {c : Controller W}
      → is_rest c.phase ≡ true
      → is_listening c.phase ≡ false
      → c.session ≡ none
      → (c.has_context ≡ true → c.is_cancelled ≡ true)
      → Holds none false c
      → AtRest c
  settled_AtRest r quiet e cancelled h = record {
    phase = r;
    microphone = h.microphone ∙ sym quiet;
    session = ap is_some e ∙ sym quiet;
    connection = h.connection ∙ sym (ap session_list e);
    cancelled = λ has _. cancelled has;
    once = h.once;
    queue = h.queue;
  }

module _ {W : Type 0} (p : Platform W) where
  pub fail-AtRest :
      (m : Text) (c : Controller W)
      → Holds none false c
      → c.is_cancelled ≡ true
      → AtRest (fail p m c)
  unfolding fail
  fail-AtRest m c h e = Quiet-AtRest (publish-Quiet _ _) (
      settled_AtRest refl refl refl (λ _. e)
        (record {
          connection = h.connection;
          microphone = h.microphone;
          once = record { at_most = h.once.at_most; not_yet = h.once.not_yet };
          queue = h.queue;
        }))

module _ {W : Type 0} where
  pub if-AtRest :
      (b : Bool) (x y : Result W)
      → (b ≡ true → AtRest x.0)
      → (b ≡ false → AtRest y.0)
      → AtRest (if b then x else y).0
  if-AtRest true x y f g = f refl
  if-AtRest false x y f g = g refl

  pub if_rest : (b : Bool) (c d : Controller W) → AtRest c → AtRest d → AtRest (if b then c else d)
  if_rest true c d h k = h
  if_rest false c d h k = k

  pub publish-Holds :
      {o : Option ℕ} {m : Bool} {c : Controller W} (u : Update)
      → Holds o m c
      → Holds o m (publish u c)
  publish-Holds {c = c} u h = Quiet-Holds (publish-Quiet u c) h
