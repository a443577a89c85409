-- ===== src/Input/Composer/Replay.antt =====
-- What the document shows after a sequence of events that were applied without an error.
use mathlib.Core.Path.{subst, ap₂}
use local_dictation.Prelude.{
  true, false, not, ◌&&◌, ◌++◌, List, [], ◌∷◌, ◌≡◌, refl, sym, ap, ◌∙◌, arith, All, if◌then◌else◌,
  ◌⊎◌, inl, inr, Bool-cases,
}
use local_dictation.Prelude.Int.{ℤ, leb_ℤ, ◌≤ℤ◌, eq_of_parts}
use local_dictation.Text.{Text, is_empty, beq}
use local_dictation.Text.Laws.{beq_iff}
use local_dictation.Protocol.{Transcript}
use local_dictation.Input.Platform.{Platform, PlatformLaws}
use local_dictation.Input.Composer.Steps.{
  Returns, Returns-continue, Returns-map, Shows-cast, tail, rendered, Follows,
}
use local_dictation.Input.Composer.Utterance.{sealed, opens}
use local_dictation.Input.Composer.Delivery.{Delivered, shown_composer, apply_delivers}
use local_dictation.Input.Composer.{State, Composer, Method, ◌>>◌, skip, apply}

module _ {W : Type 0} where
  -- The events are applied in turn, up to the first error.
  unfoldable pub deliver : Platform W → List Transcript → Method W
  deliver p [] = skip
  deliver p (e ∷ es) = apply p e >> deliver p es

-- The stable text that is shown after some events, from the one shown before: an event that is not
-- newer than the last one shown is passed over.
pub stable_after : ℤ → Text → List Transcript → Text
stable_after r s [] = s
stable_after r s (e ∷ es) =
    stable_after (if leb_ℤ e.revision r then r else e.revision)
      (if leb_ℤ e.revision r then s else e.stable) es

-- The newest revision, likewise.
pub revision_after : ℤ → List Transcript → ℤ
revision_after r [] = r
revision_after r (e ∷ es) = revision_after (if leb_ℤ e.revision r then r else e.revision) es

-- No newer than `e`, and equal to it in text where it has the same revision: a replay of `e`, or older.
pub record NoNewer (e x : Transcript) : Type 0 where
  pub older : x.revision ≤ℤ e.revision
  pub replay : x.revision ≡ e.revision → x.stable ≡ e.stable

stable_after-old :
    (e : Transcript) (ys : List Transcript) (s : Text)
    → All (NoNewer e) ys
    → stable_after e.revision s ys ≡ s
unfolding stable_after
stable_after-old e [] s all = refl
stable_after-old e (y ∷ ys) s (h, all) =
    let old : leb_ℤ y.revision e.revision ≡ true = ground (arith, h.older) in
    rw old (stable_after-old e ys s all)

-- What is shown before the newest event: something older, or a replay of it.
abbrev pub Before : Transcript → ℤ → Text → Type 0
Before e r s = (leb_ℤ e.revision r ≡ false) ⊎ ((r ≡ e.revision) × (s ≡ e.stable))

Before-step :
    (e x : Transcript) (r : ℤ) (s : Text)
    → NoNewer e x
    → Before e r s
    → Before e
        (if leb_ℤ x.revision r then r else x.revision)
        (if leb_ℤ x.revision r then s else x.stable)
Before-step e x r s h (inl new) =
    ground (arith, h.older, h.replay, eq_of_parts x.revision e.revision)
Before-step e x r s h (inr (same, text)) = ground (arith, h.older)

stable_after-cons :
    (e : Transcript) (ys : List Transcript) (r : ℤ) (s : Text)
    → Before e r s
    → stable_after r s (e ∷ ys) ≡ stable_after e.revision e.stable ys
unfolding stable_after
stable_after-cons e ys r s (inl new) =
    ap₂ (λ a b. stable_after a b ys) (ground arith) (ground arith)
stable_after-cons e ys r s (inr (same, text)) =
    ap₂ (λ a b. stable_after a b ys) (ground arith) (ground arith)

stable_after-step :
    (x : Transcript) (xs : List Transcript) (r : ℤ) (s : Text)
    → stable_after r s (x ∷ xs)
      ≡ stable_after
          (if leb_ℤ x.revision r then r else x.revision)
          (if leb_ℤ x.revision r then s else x.stable)
          xs
unfolding stable_after
stable_after-step x xs r s = refl

-- Wherever the newest event stands among the others, its stable text is the one that stays.
stable_after-newest :
    (e : Transcript) (xs ys : List Transcript) (r : ℤ) (s : Text)
    → All (NoNewer e) xs
    → All (NoNewer e) ys
    → Before e r s
    → stable_after r s (xs ++ e ∷ ys) ≡ e.stable
stable_after-newest e [] ys r s hx hy b =
    stable_after-cons e ys r s b ∙ stable_after-old e ys e.stable hy
stable_after-newest e (x ∷ xs) ys r s (h, hx) hy b =
    stable_after-step x (xs ++ e ∷ ys) r s
    ∙ stable_after-newest e xs ys _ _ hx hy (Before-step e x r s h b)

-- An event that continues the utterance `id` and does not end it.
pub record Continues (id : Text) (e : Transcript) : Type 0 where
  pub same : e.utterance_id ≡ id
  pub more : e.final ≡ false

module _ {W : Type 0} {p : Platform W} (laws : PlatformLaws p) where
  open laws use {Shows}

  -- The composer stands at the revision `r` of the utterance `id`, and the document shows its stable
  -- text `s` behind `base`.
  pub record At (base : Text) (r : ℤ) (s id gone : Text) (st : State W) : Type 0 where
    pub revision : st.composer.last_revision ≡ r
    pub committed : st.composer.committed ≡ s
    pub utterance : st.composer.utterance_id ≡ id
    pub abandoned : st.composer.abandoned ≡ gone
    pub provisional : Text
    pub follows : Follows laws (base ++ s) provisional st

  same-opens : (e : Transcript) (c : Composer) → e.utterance_id ≡ c.utterance_id → opens e c ≡ false
  same-opens e c h = ground (arith, beq_iff e.utterance_id c.utterance_id)

  apply-old :
      (e : Transcript) (base : Text) (r : ℤ) (s id gone : Text) (st : State W)
      → leb_ℤ e.revision r ≡ true
      → At base r s id gone st
      → Returns (At base r s id gone) (apply p e st)
  unfolding apply
  apply-old e base r s id gone st old h =
      let stale : leb_ℤ e.revision st.composer.last_revision ≡ true = rw h.revision old in
      rw stale (record {
        revision = h.revision;
        committed = h.committed;
        utterance = h.utterance;
        abandoned = h.abandoned;
        provisional = h.provisional;
        follows = record { shown = h.follows.shown; idle = h.follows.idle };
      })

  plain :
      (e : Transcript) (c : Composer)
      → opens e c ≡ false
      → e.final ≡ false
      → sealed e (shown_composer laws e c) ≡ rendered e c
  plain e c o f = ground arith

  Delivered-At :
      (e : Transcript) (base m gone : Text) (st st' : State W)
      → opens e st.composer ≡ false
      → e.final ≡ false
      → st.composer.abandoned ≡ gone
      → Delivered laws e base m st.composer st'
      → At base e.revision e.stable st.composer.utterance_id gone st'
  Delivered-At e base m gone st st' o f g (shows, is) =
      let c = st.composer in
      let is_plain : st'.composer ≡ rendered e c = is ∙ plain e c o f in
      record {
        revision = ap (λ (x : Composer). x.last_revision) is_plain;
        committed = ap (λ (x : Composer). x.committed) is_plain;
        utterance = ap (λ (x : Composer). x.utterance_id) is_plain;
        abandoned = ap (λ (x : Composer). x.abandoned) is_plain ∙ g;
        provisional = tail e c;
        follows = record {
          shown = Shows-cast laws st'.world (ground arith) refl shows;
          idle = λ z. ground (arith, ap (λ (x : Composer). x.composing) is_plain);
        };
      }

  apply-new :
      (e : Transcript) (base : Text) (r : ℤ) (s id gone : Text) (st : State W)
      → Continues id e
      → (not (is_empty id) && beq id gone) ≡ false
      → leb_ℤ e.revision r ≡ false
      → At base r s id gone st
      → Returns (At base e.revision e.stable id gone) (apply p e st)
  apply-new e base r s id gone st k alive new h =
      let o = same-opens e st.composer (k.same ∙ sym h.utterance) in
      Returns-map (Delivered laws e base h.provisional st.composer)
        (At base e.revision e.stable id gone)
        (λ st' d.
          subst (λ t. At base e.revision e.stable t gone st') h.utterance
            (Delivered-At e base h.provisional gone st st' o k.more h.abandoned d))
        _
        (apply_delivers laws e base h.provisional st (rw h.revision new)
          (rw (k.same, h.abandoned) alive) (λ z. ground (arith, k.more))
          (subst (λ t. Follows laws (base ++ t) h.provisional st) (sym h.committed) h.follows))

  apply-At :
      (e : Transcript) (base : Text) (r : ℤ) (s id gone : Text) (st : State W)
      → Continues id e
      → (not (is_empty id) && beq id gone) ≡ false
      → At base r s id gone st
      → Returns
          (At base
            (if leb_ℤ e.revision r then r else e.revision)
            (if leb_ℤ e.revision r then s else e.stable)
            id
            gone)
          (apply p e st)
  apply-At e base r s id gone st k alive h = elim (Bool-cases (leb_ℤ e.revision r)) [
    | inl old ↦ rw old (apply-old e base r s id gone st old h)
    | inr new ↦ rw new (apply-new e base r s id gone st k alive new h)
  ]

  deliver-At :
      (es : List Transcript) (base : Text) (r : ℤ) (s id gone : Text) (st : State W)
      → All (Continues id) es
      → (not (is_empty id) && beq id gone) ≡ false
      → At base r s id gone st
      → Returns (At base (revision_after r es) (stable_after r s es) id gone) (deliver p es st)
  unfolding deliver stable_after revision_after
  deliver-At [] base r s id gone st all alive h = h
  deliver-At (e ∷ es) base r s id gone st (first, all) alive h =
      let r' = if leb_ℤ e.revision r then r else e.revision in
      let s' = if leb_ℤ e.revision r then s else e.stable in
      Returns-continue (At base r' s' id gone)
        (At base (revision_after r' es) (stable_after r' s' es) id gone) (deliver p es)
        (λ st' h'. deliver-At es base r' s' id gone st' all alive h') _
        (apply-At e base r s id gone st first alive h)

  -- Events of the utterance at the cursor, its last one (`final`) not among them, arrive in any order and
  -- any of them more than once. Where no event of those is newer than `e` and none is refused, the document ends up with what was
  -- settled before the utterance and then the stable text of `e`, and the composer has recorded it.
  pub deliver_newest :
      (e : Transcript) (xs ys : List Transcript) (base : Text) (r : ℤ) (s id gone : Text)
      (st : State W)
      → All (Continues id) (xs ++ e ∷ ys)
      → All (NoNewer e) xs
      → All (NoNewer e) ys
      → Before e r s
      → (not (is_empty id) && beq id gone) ≡ false
      → At base r s id gone st
      → Returns
          (λ st'.
            ((n : Text) × Shows st'.world (base ++ e.stable) n)
            × (st'.composer.committed ≡ e.stable))
          (deliver p (xs ++ e ∷ ys) st)
  deliver_newest e xs ys base r s id gone st all hx hy b alive h =
      let newest = stable_after-newest e xs ys r s hx hy b in
      Returns-map
        (At base (revision_after r (xs ++ e ∷ ys)) (stable_after r s (xs ++ e ∷ ys)) id gone)
        (λ st'.
          ((n : Text) × Shows st'.world (base ++ e.stable) n) × (st'.composer.committed ≡ e.stable))
        (λ st' a. (
          (a.provisional, Shows-cast laws st'.world (ap (◌++◌ base) newest) refl a.follows.shown),
          a.committed ∙ newest,
        ))
        _ (deliver-At (xs ++ e ∷ ys) base r s id gone st all alive h)
