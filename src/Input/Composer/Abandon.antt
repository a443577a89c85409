-- ===== src/Input/Composer/Abandon.antt =====
-- An utterance that was torn down is never written to again.
use local_dictation.Prelude.{
  Bool, true, false, not, ◌&&◌, if_cases, List, [], ◌∷◌, Option, none, some, ◌≡◌, ◌≢◌, refl, ◌∙◌,
  arith, length,
}
use local_dictation.Prelude.Int.{leb_ℤ}
use local_dictation.Text.{Text, has_prefix, is_empty, beq}
use local_dictation.Text.Laws.{is_empty_iff, beq_iff}
use local_dictation.Protocol.{Transcript}
use local_dictation.Input.Platform.{Platform}
use local_dictation.Input.Composer.{
  Composer, State, Method, Error, stable_prefix_changed, ◌>>◌, when, update, continue, apply,
  refuse, render, drop_partial, open_utterance, cancel_composition_locked, end_composition_locked,
  separate_locked, begin_locked, commit_delta, mark, seal,
}
use local_dictation.Input.Composer.Replay.{deliver}

continue-ok :
    {W : Type 0} (k : Method W) (r : State W × Option Error) → r.1 ≡ none → continue k r ≡ k r.0
continue-ok k (s, none) h = refl
continue-ok k (s, some e) h = cc

module _ {W : Type 0} (p : Platform W) where
  apply-abandoned :
      (e : Transcript) (id : Text) (st : State W)
      → id ≢ []
      → st.composer.abandoned ≡ id
      → e.utterance_id ≡ id
      → ((apply p e st).1 ≡ none)
        × ((apply p e st).0.world ≡ st.world)
        × ((apply p e st).0.composer.abandoned ≡ id)
  unfolding apply
  apply-abandoned e id st ne gone same =
      ground (arith, is_empty_iff e.utterance_id, beq_iff e.utterance_id st.composer.abandoned)

  apply-retracted :
      (e : Transcript) (st : State W)
      → leb_ℤ e.revision st.composer.last_revision ≡ false
      → e.utterance_id ≡ st.composer.utterance_id
      → e.utterance_id ≢ st.composer.abandoned
      → has_prefix e.stable st.composer.committed ≡ false
      → ((apply p e st).1 ≡ some (stable_prefix_changed (length st.composer.committed)))
        × ((apply p e st).0.composer.abandoned ≡ e.utterance_id)
  unfolding apply open_utterance render refuse
  apply-retracted e st fresh same alive taken = ground (
    arith,
    beq_iff e.utterance_id st.composer.abandoned,
    beq_iff e.utterance_id st.composer.utterance_id,
  )

  drop-abandoned :
      (st : State W)
      → st.composer.composing ≡ true
      → (drop_partial p st).1 ≡ none
      → (drop_partial p st).0.composer.abandoned ≡ st.composer.utterance_id
  unfolding drop_partial cancel_composition_locked
  drop-abandoned st open_ ok = ground arith

  -- What no step but a refusal changes.
  abbrev Keeps : Method W → Type 0
  Keeps m = (st : State W) → (m st).0.composer.abandoned ≡ st.composer.abandoned

  continue-Keeps :
      (k : Method W) (r : State W × Option Error)
      → Keeps k
      → (continue k r).0.composer.abandoned ≡ r.0.composer.abandoned
  continue-Keeps k (s, none) h = h s
  continue-Keeps k (s, some e) h = refl

  seq-Keeps : (m k : Method W) → Keeps m → Keeps k → Keeps (m >> k)
  seq-Keeps m k hm hk st = continue-Keeps k (m st) hk ∙ hm st

  when-Keeps : (test : Composer → Bool) (m : Method W) → Keeps m → Keeps (when test m)
  when-Keeps test m h st =
      if_cases (λ (r : State W × Option Error). r.0.composer.abandoned ≡ st.composer.abandoned)
        (test st.composer) (m st) (st, none) (λ _. h st) (λ _. refl)

  end-Keeps : Keeps (end_composition_locked p)
  unfolding end_composition_locked
  end-Keeps st = ground arith

  separate-Keeps : Keeps (separate_locked p)
  unfolding separate_locked
  separate-Keeps st = ground arith

  open-Keeps : (e : Transcript) → Keeps (open_utterance p e)
  unfolding open_utterance end_composition_locked
  open-Keeps e st = ground arith

  begin-Keeps : Keeps (begin_locked p)
  unfolding begin_locked
  begin-Keeps st = ground arith

  commit-Keeps : (e : Transcript) → Keeps (commit_delta p e)
  unfolding commit_delta
  commit-Keeps e st = ground arith

  mark-Keeps : (e : Transcript) → Keeps (mark p e)
  unfolding mark
  mark-Keeps e st = ground arith

  seal-Keeps : (e : Transcript) → Keeps (seal p e)
  unfolding seal
  seal-Keeps e =
      let last : Method W = update (λ c. record c { utterance_id = []; committed = [] }) in
      when-Keeps (λ c. e.final) (separate_locked p >> end_composition_locked p >> last)
        (seq-Keeps (separate_locked p >> end_composition_locked p) last
          (seq-Keeps (separate_locked p) (end_composition_locked p) separate-Keeps end-Keeps)
          (λ st. refl))

  write-Keeps :
      (e : Transcript) → Keeps (begin_locked p >> commit_delta p e >> mark p e >> seal p e)
  write-Keeps e =
      let m1 = begin_locked p >> commit_delta p e in
      let m2 = m1 >> mark p e in
      seq-Keeps m2 (seal p e)
        (seq-Keeps m1 (mark p e)
          (seq-Keeps (begin_locked p) (commit_delta p e) begin-Keeps (commit-Keeps e))
          (mark-Keeps e))
        (seal-Keeps e)

  -- Without an error nothing is refused, and the abandoned utterance stays.
  abbrev Succeeds : State W → State W × Option Error → Type 0
  Succeeds st r = r.1 ≡ none → r.0.composer.abandoned ≡ st.composer.abandoned

  render-Succeeds : (e : Transcript) (st : State W) → Succeeds st (render p e st)
  unfolding render refuse
  render-Succeeds e st =
      if_cases (Succeeds st) (has_prefix e.stable st.composer.committed) _ _
        (λ _ _. write-Keeps e st) (λ _ h. ground (arith, h))

  continue-Succeeds :
      (k : Method W) (st : State W) (r : State W × Option Error)
      → r.0.composer.abandoned ≡ st.composer.abandoned
      → ((s : State W) → Succeeds s (k s))
      → Succeeds st (continue k r)
  continue-Succeeds k st (s, none) same h ok = h s ok ∙ same
  continue-Succeeds k st (s, some e) same h ok = same

  apply-Succeeds : (e : Transcript) (st : State W) → Succeeds st (apply p e st)
  unfolding apply
  apply-Succeeds e st =
      if_cases (Succeeds st) (leb_ℤ e.revision st.composer.last_revision) _ _ (λ _ _. refl)
        (λ _.
          if_cases (Succeeds st)
            (not (is_empty e.utterance_id) && beq e.utterance_id st.composer.abandoned) _ _
            (λ _ _. refl)
            (λ _.
              continue-Succeeds (render p e) st (open_utterance p e st) (open-Keeps e st)
                (render-Succeeds e)))

  deliver_rest-Succeeds :
      (es : List Transcript) (st : State W) (r : State W × Option Error)
      → Succeeds st r
      → ((s : State W) → Succeeds s (deliver p es s))
      → Succeeds st (continue (deliver p es) r)
  deliver_rest-Succeeds es st (s, none) h rest ok = rest s ok ∙ h refl
  deliver_rest-Succeeds es st (s, some e) h rest ok = absurd (ground (arith, ok))

  deliver-Succeeds : (es : List Transcript) (st : State W) → Succeeds st (deliver p es st)
  unfolding deliver
  deliver-Succeeds [] st = λ _. refl
  deliver-Succeeds (e ∷ es) st =
      deliver_rest-Succeeds es st (apply p e st) (apply-Succeeds e st) (deliver-Succeeds es)

  -- Text of an utterance that the server takes back: the event is refused with the number of characters
  -- that stay. However many events, of this utterance and of others, are then applied without an error,
  -- and as long as neither `Finish`, `DropPartial` nor `Reset` comes between them, a later event of the
  -- utterance is no error and does not change the document.
  pub retraction_is_final :
      (e x : Transcript) (es : List Transcript) (st : State W)
      → leb_ℤ e.revision st.composer.last_revision ≡ false
      → e.utterance_id ≡ st.composer.utterance_id
      → e.utterance_id ≢ []
      → e.utterance_id ≢ st.composer.abandoned
      → has_prefix e.stable st.composer.committed ≡ false
      → (deliver p es (apply p e st).0).1 ≡ none
      → x.utterance_id ≡ e.utterance_id
      → let later = (deliver p es (apply p e st).0).0 in
        ((apply p e st).1 ≡ some (stable_prefix_changed (length st.composer.committed)))
        × ((apply p x later).1 ≡ none)
        × ((apply p x later).0.world ≡ later.world)
  retraction_is_final e x es st fresh same ne alive taken ok id =
      let (refused, gone) = apply-retracted e st fresh same alive taken in
      let still = deliver-Succeeds es (apply p e st).0 ok ∙ gone in
      let (none_wrong, kept, _) = apply-abandoned x e.utterance_id _ ne still id in
      (refused, none_wrong, kept)

  -- After the partial text of an open utterance was dropped without an error, and however many events, of
  -- this utterance and of others, are then applied without an error, as long as neither `Finish`,
  -- `DropPartial` nor `Reset` comes between them: a later event of that utterance is no error and does
  -- not change the document.
  pub dropped_is_final :
      (es : List Transcript) (x : Transcript) (st : State W)
      → st.composer.composing ≡ true
      → st.composer.utterance_id ≢ []
      → (drop_partial p st).1 ≡ none
      → (deliver p es (drop_partial p st).0).1 ≡ none
      → x.utterance_id ≡ st.composer.utterance_id
      → let later = (deliver p es (drop_partial p st).0).0 in
        ((apply p x later).1 ≡ none) × ((apply p x later).0.world ≡ later.world)
  dropped_is_final es x st open_ ne ok delivered id =
      let still =
        deliver-Succeeds es (drop_partial p st).0 delivered ∙ drop-abandoned st open_ ok in
      let (none_wrong, kept, _) = apply-abandoned x st.composer.utterance_id _ ne still id in
      (none_wrong, kept)
