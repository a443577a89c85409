-- ===== src/Keystroke/Cursor.antt =====
-- The composer over the emulated composition: what the user's document holds.
use local_dictation.Prelude.{
  ◌+◌, ◌<◌, Bool, List, [], ◌∷◌, ◌++◌, Option, none, some, ◌≡◌, ◌≢◌, refl, ap, ◌∙◌, append_assoc,
  arith, length,
}
use local_dictation.Text.{Text, beq}
use local_dictation.Input.Platform.{Fault}
use local_dictation.Input.Composer.{State}
use local_dictation.Input.Composer.Safety.{Request, run, run_keeps_settled}
use local_dictation.Keystroke.{
  Typer, TyperLaws, Keystroke, keystroke_platform, common_prefix, set_marked_text,
  cancel_composition,
}
use local_dictation.Keystroke.Laws.{keystroke_laws}

-- The composer over the keystroke adapter: whatever it is asked to do, and however many of the
-- operating system's calls fail, the document goes on beginning with the text that stood in it before
-- the provisional text. Calls of the operating system are assumed to do all of their work or none.
pub document_keeps_settled :
    {W : Type 0} {t : Typer W} (laws : TyperLaws t) (rs : List Request) (st : State (Keystroke W))
    (s : Text)
    → laws.document st.world.world ≡ s ++ st.world.marked
    → (u : Text) × (laws.document (run (keystroke_platform t) rs st).world.world ≡ s ++ u)
unfolding keystroke_laws
document_keeps_settled laws rs st s h =
    let (u, n, shows) =
      run_keeps_settled (keystroke_laws laws) rs st s st.world.marked
        (record { shown = h; remembered = refl }) in
    (u ++ n, shows.shown ∙ append_assoc s u n)

module _ {W : Type 0} (t : Typer W) where
  common_prefix-nil : (m : Text) → common_prefix m [] ≡ []
  unfolding common_prefix
  common_prefix-nil [] = refl
  common_prefix-nil (c ∷ m) = refl

  erase_fails :
      (m : Text) (o : Bool) (w w1 : W) (e : Fault)
      → m ≢ []
      → t.backspace (length m) w ≡ (w1, some e)
      → set_marked_text t [] (record { marked = m; open_ = o; world = w })
        ≡ (record { marked = m; open_ = o; world = w1 }, some e)
  unfolding set_marked_text common_prefix beq
  erase_fails [] o w w1 e ne fails = absurd (ne refl)
  erase_fails (c ∷ m) o w w1 e ne fails = ground arith

  cancel_erases :
      (m : Text) (o : Bool) (w1 w2 : W)
      → m ≢ []
      → t.backspace (length m) w1 ≡ (w2, none)
      → (cancel_composition t (record { marked = m; open_ = o; world = w1 })).0.world ≡ w2
  unfolding cancel_composition
  cancel_erases [] o w1 w2 ne done = absurd (ne refl)
  cancel_erases (c ∷ m) o w1 w2 ne done = ground arith

  -- The assumption cannot be dropped. Where a call that removes the provisional text fails after it
  -- has removed some of it, the composer still believes that all of it is there: when it cancels the
  -- composition and that call succeeds, the document ends up shorter than the settled text was.
  pub partial_erasure_overreaches :
      (k : Keystroke W) (document : W → Text) (s : Text) (e : Fault) (w1 w2 : W)
      → k.marked ≢ []
      → t.backspace (length k.marked) k.world ≡ (w1, some e)
      → length (document w1) < length s + length k.marked
      → t.backspace (length k.marked) w1 ≡ (w2, none)
      → length (document w2) + length k.marked ≡ length (document w1)
      → length (document (cancel_composition t (set_marked_text t [] k).0).0.world) < length s
  partial_erasure_overreaches k document s e w1 w2 ne fails some_gone done counted =
      let failed = erase_fails k.marked k.open_ k.world w1 e ne fails in
      let erased = cancel_erases k.marked k.open_ w1 w2 ne done in
      let ends : document (cancel_composition t (set_marked_text t [] k).0).0.world ≡ document w2 =
        ap (λ (r : Keystroke W × Option Fault). document (cancel_composition t r.0).0.world) failed
        ∙ ap document erased in
      omega (arith, ap length ends)
