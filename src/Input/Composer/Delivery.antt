-- ===== src/Input/Composer/Delivery.antt =====
-- What the document shows after one event that was applied without an error.
use mathlib.Core.Path.{subst}
use local_dictation.Prelude.{
  true, false, not, ◌&&◌, ◌++◌, [], ◌≡◌, refl, sym, ap, ◌∙◌, append-nil, arith, if◌then◌else◌, inl,
  inr, Bool-cases,
}
use local_dictation.Prelude.Int.{leb_ℤ}
use local_dictation.Text.{Text, is_empty, beq, has_prefix}
use local_dictation.Protocol.{Transcript}
use local_dictation.Input.Platform.{Platform, PlatformLaws}
use local_dictation.Input.Composer.Steps.{
  Returns, Returns-continue, Returns-map, Shows-cast, tail, rendered, Follows, Rendered,
  body-Returns,
}
use local_dictation.Input.Composer.Utterance.{
  gap, sealed, opens, entered, seal-Returns, open-Returns,
}
use local_dictation.Input.Composer.{State, Composer, refuse, seal, render, apply}

module _ {W : Type 0} {p : Platform W} (laws : PlatformLaws p) where
  open laws use {Shows}

  -- The text that is settled when an event is shown: the utterance before it keeps all that it showed.
  abbrev pub settled_before : Transcript → Text → Text → Composer → Text
  settled_before e base m c = if opens e c then (base ++ c.committed) ++ m else base

  abbrev pub shown_composer : Transcript → Composer → Composer
  shown_composer e c = rendered e (entered e c)

  abbrev pub Delivered : Transcript → Text → Text → Composer → State W → Type 0
  Delivered e base m c st =
      let settled = settled_before e base m c ++ e.stable in
      Rendered laws (if e.final then settled ++ gap (shown_composer e c) else settled) (tail e c)
        (sealed e (shown_composer e c)) st

  tail-entered : (e : Transcript) (c : Composer) → tail e (entered e c) ≡ tail e c
  tail-entered e c = ground arith

  before_committed :
      (e : Transcript) (base m : Text) (c : Composer)
      → (if opens e c then (base ++ c.committed) ++ m else base ++ c.committed)
        ≡ settled_before e base m c ++ (entered e c).committed
  before_committed e base m c = ground (arith, append-nil ((base ++ c.committed) ++ m))

  render-Returns :
      (e : Transcript) (base m : Text) (c : Composer) (st : State W)
      → st.composer ≡ entered e c
      → (e.final ≡ true → tail e c ≡ [])
      → Follows laws
          (settled_before e base m c ++ (entered e c).committed)
          (if opens e c then [] else m)
          st
      → Returns (Delivered e base m c) (render p e st)
  unfolding render refuse
  render-Returns e base m c st same quiet f =
      elim (Bool-cases (has_prefix e.stable st.composer.committed)) [
        | inl h ↦ rw h (
            let s = settled_before e base m c ++ e.stable in
            let record_is : rendered e st.composer ≡ shown_composer e c = ap (rendered e) same in
            Returns-continue (Rendered laws s (tail e c) (shown_composer e c))
              (Delivered e base m c) (seal p e)
              (λ st' (shows, is).
                subst
                  (λ k.
                    Returns
                      (Rendered laws (if e.final then s ++ gap k else s) (tail e c) (sealed e k))
                      (seal p e st'))
                  is
                  (seal-Returns laws e s (tail e c) st' (ap (λ (x : Composer). x.composing) is)
                    quiet shows))
              _
              (Returns-map (Rendered laws s (tail e st.composer) (rendered e st.composer))
                (Rendered laws s (tail e c) (shown_composer e c))
                (λ st' (shows, is). (
                  Shows-cast laws st'.world refl (ap (tail e) same ∙ tail-entered e c) shows,
                  is ∙ record_is,
                ))
                _
                (body-Returns laws e (settled_before e base m c) (if opens e c then [] else m) st h
                  (record {
                    shown =
                        Shows-cast laws st.world
                          (ap (λ (x : Composer). settled_before e base m c ++ x.committed)
                            (sym same))
                          refl f.shown;
                    idle = f.idle;
                  }))))
        | inr h ↦ rw h tt
      ]

  -- An event that is newer than what the composer has shown, of an utterance that was not torn down,
  -- leaves the whole of its stable text at the cursor when it is applied without an error: behind
  -- what was settled before, in front of the provisional tail, and followed by the gap if it is the
  -- last of its utterance, which comes without a tail, as the server sends it. The composer's own record
  -- agrees with the document.
  pub apply_delivers :
      (e : Transcript) (base m : Text) (st : State W)
      → leb_ℤ e.revision st.composer.last_revision ≡ false
      → (not (is_empty e.utterance_id) && beq e.utterance_id st.composer.abandoned) ≡ false
      → (e.final ≡ true → tail e st.composer ≡ [])
      → Follows laws (base ++ st.composer.committed) m st
      → Returns (Delivered e base m st.composer) (apply p e st)
  unfolding apply
  apply_delivers e base m st fresh alive quiet f =
      let c = st.composer in
      rw (fresh, alive)
        (Returns-continue
          (λ st'.
            Follows laws (if opens e c then (base ++ c.committed) ++ m else base ++ c.committed)
              (if opens e c then [] else m) st'
            × (st'.composer ≡ entered e c))
          (Delivered e base m c) (render p e)
          (λ st' r. render-Returns e base m c st' r.1 quiet (record {
            shown = Shows-cast laws st'.world (before_committed e base m c) refl r.0.shown;
            idle = r.0.idle;
          }))
          _ (open-Returns laws e (base ++ c.committed) m st f))
