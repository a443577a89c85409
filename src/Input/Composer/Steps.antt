-- ===== src/Input/Composer/Steps.antt =====
-- What each step of `Composer.Apply` does to the document when it returns no error.
use mathlib.Core.Path.{subst}
use local_dictation.Prelude.{
  Bool, true, false, not, ◌++◌, [], Option, none, some, ◌≡◌, refl, sym, ap, ◌∙◌, append_assoc,
  append-nil, arith, if◌then◌else◌,
}
use local_dictation.Text.{Text, is_empty, trim_prefix, has_prefix}
use local_dictation.Text.Laws.{is_empty_iff, append-trim_prefix}
use local_dictation.Protocol.{Transcript}
use local_dictation.Input.Platform.{Platform, PlatformLaws, Fault, Ends}
use local_dictation.Input.Composer.{
  State, Composer, Method, Error, ◌>>◌, continue, update, wrap, begin_locked, commit_delta, mark,
  begin_failed, commit_failed, mark_failed,
}

module _ {W : Type 0} where
  -- What holds after a method that returned no error.
  abbrev pub Returns : (State W → Type 0) → State W × Option Error → Type 0
  Returns Q (s, none) = Q s
  Returns Q (s, some e) = Unit

  pub Returns-continue :
      (P Q : State W → Type 0) (k : Method W)
      → ((s : State W) → P s → Returns Q (k s))
      → (r : State W × Option Error) → Returns P r
      → Returns Q (continue k r)
  Returns-continue P Q k next (s, none) h = next s h
  Returns-continue P Q k next (s, some e) h = tt

  pub Returns-map :
      (P Q : State W → Type 0)
      → ((s : State W) → P s → Q s)
      → (r : State W × Option Error) → Returns P r
      → Returns Q r
  Returns-map P Q f (s, none) h = f s h
  Returns-map P Q f (s, some e) h = tt

  pub Returns-if :
      (b : Bool) (Q : State W → Type 0) (m k : State W × Option Error)
      → (b ≡ true → Returns Q m)
      → (b ≡ false → Returns Q k)
      → Returns Q (if b then m else k)
  Returns-if true Q m k h h' = h refl
  Returns-if false Q m k h h' = h' refl

-- The provisional text that an event leaves at the cursor.
abbrev pub tail : Transcript → Composer → Text
tail e c = if c.live_preview then e.partial else []

-- The composer after an event is shown.
abbrev pub rendered : Transcript → Composer → Composer
rendered e c = record c {
  committed = e.stable;
  composing = true;
  wrote = if is_empty (trim_prefix e.stable c.committed) then c.wrote else true;
  last_revision = e.revision;
}

module _ {W : Type 0} {p : Platform W} (laws : PlatformLaws p) where
  open laws use {Shows, begin_lem, set_marked_lem, commit_lem, end_lem}

  -- The document shows `settled` and then `m`, and nothing is provisional unless a composition is open.
  pub record Follows (settled m : Text) (st : State W) : Type 0 where
    pub shown : Shows st.world settled m
    pub idle : st.composer.composing ≡ false → m ≡ []

  abbrev pub Unsettled : Text → W → Type 0
  Unsettled s v = (u : Text) × (n : Text) × Shows v (s ++ u) n

  pub Shows-cast : (w : W) {s s' m m' : Text} → s ≡ s' → m ≡ m' → Shows w s m → Shows w s' m'
  Shows-cast w {s' = s'} {m = m} p q h = subst (λ n. Shows w s' n) q (subst (λ t. Shows w t m) p h)

  pub Returns-call :
      (s : Text) (Good : W → Type 0) (c : Composer) (f : Fault → Error) (r : W × Option Fault)
      → Ends Good (Unsettled s) r
      → Returns
          (λ st. Good st.world × (st.composer ≡ c))
          (record { composer = c; world = r.0 }, wrap f r.1)
  Returns-call s Good c f (w, none) h = (h, refl)
  Returns-call s Good c f (w, some e) h = tt

  -- One composition is open, and the document shows `s` with some provisional text.
  abbrev pub Opened : Text → Composer → State W → Type 0
  Opened s c st = ((n : Text) × Shows st.world s n) × (st.composer ≡ c)

  not-false : (b : Bool) → not b ≡ false → b ≡ true
  not-false b h = ground arith

  not-true : (b : Bool) → not b ≡ true → b ≡ false
  not-true b h = ground arith

  abbrev pub opened : Composer → Composer
  opened c = record c { composing = true }

  pub begin-Returns :
      (st : State W) (s m : Text)
      → Follows s m st
      → Returns (Opened s (record st.composer { composing = true })) (begin_locked p st)
  unfolding begin_locked
  begin-Returns st s m f =
      Returns-if (not st.composer.composing) (Opened s (record st.composer { composing = true })) _
        _
        (λ e.
          Returns-continue (λ st'. Shows st'.world (s ++ m) [] × (st'.composer ≡ st.composer))
            (Opened s (record st.composer { composing = true }))
            (update (λ c. record c { composing = true }))
            (λ st' h. (
              (
                [],
                subst (λ t. Shows st'.world t [])
                    (ap (◌++◌ s) (f.idle (not-true _ e)) ∙ append-nil s) h.0,
              ),
              ap opened h.1,
            ))
            _
            (Returns-call s (λ v. Shows v (s ++ m) []) st.composer begin_failed
              (p.begin_composition st.world) (begin_lem st.world s m f.shown)))
        (λ e. ((m, f.shown), ground (arith, not-false st.composer.composing e)))

  -- The composer after the newly stable text is committed.
  abbrev pub recorded : Transcript → Composer → Composer
  recorded e c = record c {
    committed = e.stable;
    wrote = if is_empty (trim_prefix e.stable c.committed) then c.wrote else true;
  }

  pub commit-Returns :
      (e : Transcript) (base : Text) (st : State W)
      → has_prefix e.stable st.composer.committed ≡ true
      → ((n : Text) × Shows st.world (base ++ st.composer.committed) n)
      → Returns (Opened (base ++ e.stable) (recorded e st.composer)) (commit_delta p e st)
  unfolding commit_delta
  commit-Returns e base st h (n, o) =
      let c = st.composer in
      let delta = trim_prefix e.stable c.committed in
      let split = append-trim_prefix e.stable c.committed h in
      Returns-if (is_empty delta) (Opened (base ++ e.stable) (recorded e c)) _ _
        (λ t.
          let same : c.committed ≡ e.stable =
            ground (arith, split, is_empty_iff delta, append-nil c.committed) in
          ((n, subst (λ u. Shows st.world (base ++ u) n) same o), ground arith))
        (λ t.
          Returns-continue
            (λ st'.
              ((k : Text) × Shows st'.world ((base ++ c.committed) ++ delta) k × (n ≡ [] → k ≡ []))
              × (st'.composer ≡ c))
            (Opened (base ++ e.stable) (recorded e c))
            (update (λ c. record c { committed = e.stable; wrote = true }))
            (λ st' (g, same). (
              (
                g.0,
                subst (λ u. Shows st'.world u g.0)
                    (append_assoc base c.committed delta ∙ ap (◌++◌ base) (sym split)) g.1,
              ),
              ground arith,
            ))
            _
            (Returns-call (base ++ c.committed)
              (λ v. (k : Text) × Shows v ((base ++ c.committed) ++ delta) k × (n ≡ [] → k ≡ [])) c
              commit_failed (p.commit_text delta st.world)
              (commit_lem delta st.world (base ++ c.committed) n
                (λ z. ground (arith, is_empty_iff delta)) o)))

  -- The text at the cursor is the settled text and the provisional text.
  abbrev pub Rendered : Text → Text → Composer → State W → Type 0
  Rendered s m c st = Shows st.world s m × (st.composer ≡ c)

  abbrev pub remembered : Transcript → Composer → Composer
  remembered e c = record c { last_revision = e.revision }

  pub mark-Returns :
      (e : Transcript) (s : Text) (st : State W)
      → ((n : Text) × Shows st.world s n)
      → Returns (Rendered s (tail e st.composer) (remembered e st.composer)) (mark p e st)
  unfolding mark
  mark-Returns e s st (n, o) =
      Returns-continue (Rendered s (tail e st.composer) st.composer)
        (Rendered s (tail e st.composer) (remembered e st.composer))
        (update (λ c. record c { last_revision = e.revision }))
        (λ st' h. (h.0, ap (remembered e) h.1)) _
        (Returns-call s (λ v. Shows v s (tail e st.composer)) st.composer mark_failed
          (p.set_marked_text (tail e st.composer) st.world)
          (set_marked_lem (tail e st.composer) st.world s n o))

  -- A fresh event that does not end its utterance: the document shows its stable text in full.
  pub body-Returns :
      (e : Transcript) (base m : Text) (st : State W)
      → has_prefix e.stable st.composer.committed ≡ true
      → Follows (base ++ st.composer.committed) m st
      → Returns
          (Rendered (base ++ e.stable) (tail e st.composer) (rendered e st.composer))
          ((begin_locked p >> commit_delta p e >> mark p e) st)
  body-Returns e base m st h f =
      let c = st.composer in
      let c1 = record c { composing = true } in
      Returns-continue (Opened (base ++ e.stable) (recorded e c1))
        (Rendered (base ++ e.stable) (tail e c) (rendered e c)) (mark p e)
        (λ st2 (o, same).
          subst
            (λ c2.
              Returns (Rendered (base ++ e.stable) (tail e c2) (remembered e c2)) (mark p e st2))
            same (mark-Returns e (base ++ e.stable) st2 o))
        _
        (Returns-continue (Opened (base ++ c.committed) c1)
          (Opened (base ++ e.stable) (recorded e c1)) (commit_delta p e)
          (λ st1 (o, same).
            let kept : c.committed ≡ st1.composer.committed =
              ap (λ (x : Composer). x.committed) (sym same) in
            subst (λ c2. Returns (Opened (base ++ e.stable) (recorded e c2)) (commit_delta p e st1))
              same
              (commit-Returns e base st1 (subst (λ t. has_prefix e.stable t ≡ true) kept h)
                (o.0, subst (λ t. Shows st1.world (base ++ t) o.0) kept o.1)))
          _ (begin-Returns st (base ++ c.committed) m f))
