-- ===== src/Session/Ended.antt =====
-- What a session that ends leaves at the cursor.
use local_dictation.Prelude.{false, ◌≡◌, arith}
use local_dictation.Text.{Text}
use local_dictation.Input.Platform.{Platform}
use local_dictation.Input.Composer.{State, drop_partial, cancel_composition_locked}
use local_dictation.Session.Controller.{Controller}

module _ {W : Type 0} (p : Platform W) where
  pub dropped_closed : (s : State W) → (drop_partial p s).0.composer.composing ≡ false
  unfolding drop_partial cancel_composition_locked
  dropped_closed s = ground arith

  abbrev IsClosed : Controller W → Type 0
  IsClosed c = c.text.composer.composing ≡ false
