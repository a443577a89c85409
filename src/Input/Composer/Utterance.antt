-- ===== src/Input/Composer/Utterance.antt =====
-- Where an utterance begins and ends: the composition is closed, and the gap is typed.
use mathlib.Core.Path.{subst}
use local_dictation.Prelude.{
  Bool, true, false, not, ◌&&◌, ◌++◌, [], Option, none, some, ◌≡◌, ◌≢◌, refl, sym, ap, ◌∙◌,
  append-nil, arith, if◌then◌else◌,
}
use local_dictation.Text.{Text, beq, trim_right}
use local_dictation.Protocol.{Transcript}
use local_dictation.Input.Platform.{Platform, PlatformLaws, Fault, Ends}
use local_dictation.Input.Composer.Steps.{
  Returns, Returns-continue, Returns-if, Returns-map, Shows-cast, Returns-call, Unsettled, Follows,
  Rendered,
}
use local_dictation.Input.Composer.{
  State, Composer, update, call, wrap, is_blank, end_composition_locked, separate_locked,
  open_utterance, seal, utterance_separator, increment, end_failed, separator_failed,
}

-- The gap that is typed behind a finished utterance.
abbrev pub gap : Composer → Text
gap c =
    if c.wrote && beq (trim_right is_blank c.committed) c.committed then utterance_separator else []

abbrev pub rested : Composer → Composer
rested c = record c { wrote = false }

-- The composer after the last event of an utterance.
abbrev pub sealed : Transcript → Composer → Composer
sealed e c =
    if e.final
    then record c { wrote = false; composing = false; utterance_id = []; committed = [] }
    else c

-- The event belongs to another utterance than the one at the cursor.
abbrev pub opens : Transcript → Composer → Bool
opens e c = not (beq e.utterance_id c.utterance_id)

abbrev pub enter : Transcript → Composer → Composer
enter e c = record c {
  utterance_id = e.utterance_id;
  committed = [];
  wrote = false;
  utterances_shown = increment c.utterances_shown;
}

-- The composer after an event has opened its utterance, if it does.
abbrev pub entered : Transcript → Composer → Composer
entered e c = if opens e c then enter e (record c { composing = false }) else c

module _ {W : Type 0} {p : Platform W} (laws : PlatformLaws p) where
  open laws use {Shows, commit_lem, end_lem}

  separator-ne-nil : utterance_separator ≢ []
  separator-ne-nil e = ground arith

  pub separator-Returns :
      (s : Text) (st : State W) (c : Composer)
      → Shows st.world s []
      → Returns (Rendered laws (s ++ utterance_separator) [] (rested c)) (
          call
            (p.commit_text utterance_separator)
            separator_failed
            (record st { composer = rested c }))
  separator-Returns s st c h =
      go (p.commit_text utterance_separator st.world)
        (commit_lem utterance_separator st.world s [] separator-ne-nil h)
    where
      go :
          (r : W × Option Fault)
          → Ends
              (λ v.
                (n : Text) × Shows v (s ++ utterance_separator) n × (◌≡◌ {A = Text} [] [] → n ≡ []))
              (Unsettled laws s)
              r
          → Returns
              (Rendered laws (s ++ utterance_separator) [] (rested c))
              (record { composer = rested c; world = r.0 }, wrap separator_failed r.1)
      go (w, none) (n, g, z) = (subst (λ t. Shows w (s ++ utterance_separator) t) (z refl) g, refl)
      go (w, some x) g = tt

  gap-nil-Shows :
      (w : W) (s : Text) (c : Composer) → gap c ≡ [] → Shows w s [] → Shows w (s ++ gap c) []
  gap-nil-Shows w s c g h = subst (λ u. Shows w u []) (sym (append-nil s) ∙ ap (◌++◌ s) (sym g)) h

  pub separate-Returns :
      (s : Text) (st : State W)
      → Shows st.world s []
      → Returns
          (Rendered laws (s ++ gap st.composer) [] (rested st.composer))
          (separate_locked p st)
  unfolding separate_locked
  separate-Returns s st h =
      let c = st.composer in
      Returns-if c.wrote (Rendered laws (s ++ gap c) [] (rested c)) _ _
        (λ e.
          Returns-if (beq (trim_right is_blank c.committed) c.committed)
            (Rendered laws (s ++ gap c) [] (rested c)) _ _
            (λ t.
              let is_gap : utterance_separator ≡ gap c = ground arith in
              subst
                (λ u. Returns (Rendered laws (s ++ u) [] (rested c)) (
                  call (p.commit_text utterance_separator) separator_failed
                    (record st { composer = rested c })))
                is_gap (separator-Returns s st c h))
            (λ t. (gap-nil-Shows st.world s c (ground arith) h, refl)))
        (λ e. (gap-nil-Shows st.world s c (ground arith) h, ground arith))

  pub end-Returns :
      (s m : Text) (st : State W)
      → Follows laws s m st
      → Returns
          (Rendered laws (s ++ m) [] (record st.composer { composing = false }))
          (end_composition_locked p st)
  unfolding end_composition_locked
  end-Returns s m st f =
      let c = record st.composer { composing = false } in
      Returns-if st.composer.composing (Rendered laws (s ++ m) [] c) _ _
        (λ e.
          Returns-call laws s (λ v. Shows v (s ++ m) []) c end_failed (p.end_composition st.world)
            (end_lem st.world s m f.shown))
        (λ e. (
          subst (λ u. Shows st.world (s ++ u) []) (sym (f.idle e))
              (subst (λ u. Shows st.world u []) (sym (append-nil s))
                (subst (λ u. Shows st.world s u) (f.idle e) f.shown)),
          ground arith,
        ))

  pub seal-Returns :
      (e : Transcript) (s m : Text) (st : State W)
      → st.composer.composing ≡ true
      → (e.final ≡ true → m ≡ [])
      → Shows st.world s m
      → Returns
          (Rendered laws (if e.final then s ++ gap st.composer else s) m (sealed e st.composer))
          (seal p e st)
  unfolding seal
  seal-Returns e s m st open_ quiet h =
      let c = st.composer in
      let Q = Rendered laws (if e.final then s ++ gap c else s) m (sealed e c) in
      Returns-if e.final Q _ _
        (λ t.
          Returns-continue
            (Rendered laws (s ++ gap c) [] (record c { wrote = false; composing = false })) Q
            (update (λ c. record c { utterance_id = []; committed = [] }))
            (λ st' r. (Shows-cast laws st'.world (ground arith) (sym (quiet t)) r.0, ground arith))
            _
            (Returns-continue (Rendered laws (s ++ gap c) [] (rested c))
              (Rendered laws (s ++ gap c) [] (record c { wrote = false; composing = false }))
              (end_composition_locked p)
              (λ st' r.
                Returns-map
                  (Rendered laws ((s ++ gap c) ++ []) []
                    (record st'.composer { composing = false }))
                  (Rendered laws (s ++ gap c) [] (record c { wrote = false; composing = false }))
                  (λ u q.
                    (Shows-cast laws u.world (append-nil (s ++ gap c)) refl q.0, ground arith))
                  _ (end-Returns (s ++ gap c) [] st' (record { shown = r.0; idle = λ _. refl })))
              _ (separate-Returns s st (subst (λ u. Shows st.world s u) (quiet t) h))))
        (λ t. (Shows-cast laws st.world (ground arith) refl h, ground arith))

  pub open-Returns :
      (e : Transcript) (s m : Text) (st : State W)
      → Follows laws s m st
      → Returns
          (λ st'.
            Follows laws
              (if opens e st.composer then s ++ m else s)
              (if opens e st.composer then [] else m)
              st'
            × (st'.composer ≡ entered e st.composer))
          (open_utterance p e st)
  unfolding open_utterance
  open-Returns e s m st f =
      let c = st.composer in
      let Q = λ (st' : State W).
        Follows laws (if opens e c then s ++ m else s) (if opens e c then [] else m) st'
        × (st'.composer ≡ entered e c) in
      Returns-if (opens e c) Q _ _
        (λ t.
          Returns-continue (Rendered laws (s ++ m) [] (record c { composing = false })) Q
            (update (enter e))
            (λ st' r. (
              record {
                shown = Shows-cast laws st'.world (ground arith) (ground arith) r.0;
                idle = λ _. ground arith;
              },
              ground arith,
            ))
            _ (end-Returns s m st f))
        (λ t. (
          record {
            shown = Shows-cast laws st.world (ground arith) (ground arith) f.shown;
            idle = λ z. ground (arith, f.idle z);
          },
          ground arith,
        ))
