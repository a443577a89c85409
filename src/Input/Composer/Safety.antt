-- ===== src/Input/Composer/Safety.antt =====
-- Text that is settled in the document is never taken back, whatever the composer is asked to do and
-- whatever the platform refuses.
use mathlib.Core.Path.{subst}
use local_dictation.Prelude.{
  Bool, true, false, not, ◌++◌, List, [], ◌∷◌, Option, none, some, ◌≡◌, ◌≢◌, refl, ◌&&◌,
  append_assoc, append-nil, arith, if◌then◌else◌, inl, inr, Bool-cases,
}
use local_dictation.Prelude.Int.{leb_ℤ}
use local_dictation.Text.{Text, is_empty, beq, trim_prefix, has_prefix}
use local_dictation.Text.Laws.{is_empty_iff}
use local_dictation.Protocol.{Transcript}
use local_dictation.Input.Platform.{Platform, PlatformLaws, Call, Fault, Ends}
use local_dictation.Input.Composer.{
  State, Composer, Method, Error, ◌>>◌, continue, update, call, when, reset, set_live_preview,
  cancel_composition_locked, end_composition_locked, separate_locked, open_utterance, refuse,
  begin_locked, commit_delta, mark, seal, render, apply, drop_partial, finish, close,
  utterance_separator, cancel_failed, commit_failed, mark_failed,
}

-- One call of a method by the composer's owner.
pub data Request : Type 0 where
  on_transcript : Transcript → Request
  on_live_preview : Bool → Request
  on_drop on_finish on_reset on_close : Request

module _ {W : Type 0} (p : Platform W) where
  unfoldable pub perform : Request → Method W
  perform (on_transcript e) = apply p e
  perform (on_live_preview b) = set_live_preview b
  perform on_drop = drop_partial p
  perform on_finish = finish p
  perform on_reset = reset
  perform on_close = close p

  -- An error is reported by the owner, and the next request follows.
  unfoldable pub run : List Request → State W → State W
  run [] s = s
  run (r ∷ rs) s = run rs (perform r s).0

module _ {W : Type 0} {p : Platform W} (laws : PlatformLaws p) where
  open laws use {Shows, begin_lem, set_marked_lem, commit_lem, end_lem, cancel_lem, close_lem}

  -- The world shows the settled text `s`, with more behind it.
  abbrev pub Grew : Text → W → Type 0
  Grew s w = (t : Text) × (n : Text) × Shows w (s ++ t) n

  record Keeps (m : Method W) : Type 0 where
    at : (st : State W) (s : Text) → Grew s st.world → Grew s (m st).0.world

  -- The same of a call of the platform.
  record Extends (m : Call W) : Type 0 where
    at : (w : W) (s : Text) → Grew s w → Grew s (m w).0

  grow : (s t u n : Text) {w : W} → Shows w ((s ++ t) ++ u) n → Grew s w
  grow s t u n {w} h = (t ++ u, n, subst (λ v. Shows w v n) (append_assoc s t u) h)

  grow-nil : (s t n : Text) {w : W} → Shows w (s ++ t) n → Grew s w
  grow-nil s t n h = (t, n, h)

  Keeps-continue :
      (k : Method W) (r : State W × Option Error) (s : Text)
      → Keeps k
      → Grew s r.0.world
      → Grew s (continue k r).0.world
  Keeps-continue k (st, none) s hk g = hk.at st s g
  Keeps-continue k (st, some e) s hk g = g

  Keeps->> : {m k : Method W} → Keeps m → Keeps k → Keeps (m >> k)
  Keeps->> {m} {k} hm hk = record { at = λ st s g. Keeps-continue k (m st) s hk (hm.at st s g) }

  Keeps-if :
      (b : Bool) {m k : Method W}
      → (b ≡ true → Keeps m)
      → (b ≡ false → Keeps k)
      → Keeps (λ st. if b then m st else k st)
  Keeps-if true hm hk = hm refl
  Keeps-if false hm hk = hk refl

  Keeps-when : (test : Composer → Bool) {m : Method W} → Keeps m → Keeps (when test m)
  Keeps-when test {m} hm = record { at = λ st s g. branch (test st.composer) st s g }
    where
      branch :
          (b : Bool) (st : State W) (s : Text)
          → Grew s st.world
          → Grew s (if b then m st else (st, none)).0.world
      branch true st s g = hm.at st s g
      branch false st s g = g

  Keeps-update : (f : Composer → Composer) → Keeps (update f)
  Keeps-update f = record { at = λ st s g. g }

  Keeps-call : {m : Call W} (f : Fault → Error) → Extends m → Keeps (call m f)
  Keeps-call f h = record { at = λ st s g. h.at st.world s g }

  Ends-Grew :
      (s t : Text) (r : W × Option Fault) {Good : W → Type 0}
      → Ends Good (λ v. (u : Text) × (n : Text) × Shows v ((s ++ t) ++ u) n) r
      → ((v : W) → Good v → Grew s v)
      → Grew s r.0
  Ends-Grew s t (v, none) h good = good v h
  Ends-Grew s t (v, some e) (u, n, h) good = grow s t u n h

  begin-Extends : Extends p.begin_composition
  begin-Extends = record {
    at = λ w s (t, m, h). Ends-Grew s t _ (begin_lem w (s ++ t) m h) (λ v g. grow s t m [] g);
  }

  end-Extends : Extends p.end_composition
  end-Extends = record {
    at = λ w s (t, m, h). Ends-Grew s t _ (end_lem w (s ++ t) m h) (λ v g. grow s t m [] g);
  }

  cancel-Extends : Extends p.cancel_composition
  cancel-Extends = record {
    at = λ w s (t, m, h). Ends-Grew s t _ (cancel_lem w (s ++ t) m h) (λ v g. (t, [], g));
  }

  mark-Extends : (u : Text) → Extends (p.set_marked_text u)
  mark-Extends u = record {
    at = λ w s (t, m, h). Ends-Grew s t _ (set_marked_lem u w (s ++ t) m h) (λ v g. (t, u, g));
  }

  commit-Extends : (u : Text) → u ≢ [] → Extends (p.commit_text u)
  commit-Extends u ne = record {
    at = λ w s (t, m, h).
        Ends-Grew s t _ {Good = λ v. (n : Text) × Shows v ((s ++ t) ++ u) n × (m ≡ [] → n ≡ [])}
          (commit_lem u w (s ++ t) m ne h) (λ v g. grow s t u g.0 g.1);
  }

  close-Extends : Extends p.close
  close-Extends = record {
    at = λ w s (t, m, h). let (u, n, h') = close_lem w (s ++ t) m h in grow s t u n h';
  }

  separator-ne-nil : utterance_separator ≢ []
  separator-ne-nil e = ground arith

  delta-ne-nil : (t : Text) → is_empty t ≡ false → t ≢ []
  delta-ne-nil t h e = ground (arith, is_empty_iff t)

  ruleset steps = (
    Keeps->>, Keeps-when, Keeps-update, Keeps-call, begin-Extends, end-Extends, cancel-Extends,
    mark-Extends, commit-Extends, close-Extends,
  )

  cancel-Keeps : Keeps (cancel_composition_locked p)
  unfolding cancel_composition_locked
  cancel-Keeps = search steps

  end-Keeps : Keeps (end_composition_locked p)
  unfolding end_composition_locked
  end-Keeps = search steps

  separate-Keeps : Keeps (separate_locked p)
  unfolding separate_locked
  separate-Keeps = search (steps, separator-ne-nil) depth 7

  open-Keeps : (e : Transcript) → Keeps (open_utterance p e)
  unfolding open_utterance
  open-Keeps e = search (steps, end-Keeps)

  begin-Keeps : Keeps (begin_locked p)
  unfolding begin_locked
  begin-Keeps = search steps

  commit_delta-Keeps : (e : Transcript) → Keeps (commit_delta p e)
  unfolding commit_delta
  commit_delta-Keeps e = record {
    at = λ st. (split (trim_prefix e.stable st.composer.committed)).at st;
  }
    where
      split :
          (delta : Text)
          → Keeps (λ st.
            if is_empty delta
            then (st, none)
            else (call (p.commit_text delta) commit_failed
                  >> update (λ c. record c { committed = e.stable; wrote = true }))
                st)
      split delta =
          Keeps-if (is_empty delta) (λ h. Keeps-update (λ c. c))
            (λ h.
              Keeps->> (Keeps-call commit_failed (commit-Extends delta (delta-ne-nil delta h)))
                (Keeps-update (λ c. record c { committed = e.stable; wrote = true })))

  mark-Keeps : (e : Transcript) → Keeps (mark p e)
  unfolding mark
  mark-Keeps e = record {
    at = λ st.
        (Keeps->> (Keeps-call mark_failed (mark-Extends _))
            (Keeps-update (λ c. record c { last_revision = e.revision }))).at
          st;
  }

  seal-Keeps : (e : Transcript) → Keeps (seal p e)
  unfolding seal
  seal-Keeps e = search (steps, separate-Keeps, end-Keeps)

  refuse-Keeps : (e : Transcript) → Keeps (refuse p e)
  unfolding refuse
  refuse-Keeps e = record { at = λ st. cancel-Keeps.at st }

  render-Keeps : (e : Transcript) → Keeps (render p e)
  unfolding render
  render-Keeps e = record {
    at = λ st.
        (Keeps-if (has_prefix e.stable st.composer.committed)
            (λ _.
              Keeps->> (Keeps->> (Keeps->> begin-Keeps (commit_delta-Keeps e)) (mark-Keeps e))
                (seal-Keeps e))
            (λ _. refuse-Keeps e)).at
          st;
  }

  apply-Keeps : (e : Transcript) → Keeps (apply p e)
  unfolding apply
  apply-Keeps e = record { at = branch }
    where
      branch : (st : State W) (s : Text) → Grew s st.world → Grew s (apply p e st).0.world
      branch st s g = elim (Bool-cases (leb_ℤ e.revision st.composer.last_revision)) [
        | inl h ↦ rw h g
        | inr h ↦
            rw h
              (elim (Bool-cases
                (not (is_empty e.utterance_id) && beq e.utterance_id st.composer.abandoned)) [
                  | inl k ↦ rw k g
                  | inr k ↦ rw k ((Keeps->> (open-Keeps e) (render-Keeps e)).at st s g)
                ])
      ]

  drop_partial-Keeps : Keeps (drop_partial p)
  unfolding drop_partial
  drop_partial-Keeps = search (steps, cancel-Keeps)

  finish-Keeps : Keeps (finish p)
  unfolding finish
  finish-Keeps = record { at = (Keeps->> end-Keeps separate-Keeps).at }

  close-Keeps : Keeps (close p)
  unfolding close
  close-Keeps = record {
    at = λ st s g.
        close-Extends.at _ s
          ((Keeps-when (λ c. c.composing) (Keeps-call cancel_failed cancel-Extends)).at st s g);
  }

  perform-Keeps : (r : Request) → Keeps (perform p r)
  unfolding perform set_live_preview reset
  perform-Keeps (on_transcript e) = apply-Keeps e
  perform-Keeps (on_live_preview b) = Keeps-update _
  perform-Keeps on_drop = drop_partial-Keeps
  perform-Keeps on_finish = finish-Keeps
  perform-Keeps on_reset = Keeps-update _
  perform-Keeps on_close = close-Keeps

  run-Grew :
      (rs : List Request) (st : State W) (s : Text) → Grew s st.world → Grew s (run p rs st).world
  unfolding run
  run-Grew [] st s g = g
  run-Grew (r ∷ rs) st s g = run-Grew rs _ s ((perform-Keeps r).at st s g)

  -- Whatever requests the composer is given, in whatever order and however many of the platform's
  -- calls fail, the text that the document showed as settled is still the beginning of what it shows
  -- as settled afterwards, provided that the adapter keeps its laws.
  pub run_keeps_settled :
      (rs : List Request) (st : State W) (s m : Text)
      → Shows st.world s m
      → (t : Text) × (n : Text) × Shows (run p rs st).world (s ++ t) n
  run_keeps_settled rs st s m h = run-Grew rs st s ([], m, rw append-nil h)
