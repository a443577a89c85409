-- ===== src/Keystroke.antt =====
-- `keystrokeComposer` of client/internal/platform/keystroke.go: a composition emulated by typing and
-- backspacing. The interface `typer` is a parameter; the state of the composer stands beside what
-- the typer writes to.
pub mod Laws
pub mod Cursor
use local_dictation.Prelude.{
  ℕ, zero, suc, ◌+◌, ◌-◌, Bool, true, false, [], ◌∷◌, ◌++◌, Option, none, some, ◌==◌, ltb,
  if◌then◌else◌, length, drop, ◌≡◌,
}
use local_dictation.Text.{Text, beq, is_empty}
use local_dictation.Input.Platform.{Platform, Call, Fault, Ends}

-- The interface `typer`: insert a text, or delete characters backwards.
pub record Typer (W : Type 0) : Type 0 where
  pub name : Text
  pub type_text : Text → Call W
  pub backspace : ℕ → Call W
  pub close : Call W

-- What is assumed of the operating system's half: a call that succeeds does all of what it is asked
-- to the text before the cursor, and a call that fails does none of it.
pub record TyperLaws {W : Type 0} (t : Typer W) : Type 0 where
  pub document : W → Text
  pub type_lem :
      (u : Text) (w : W)
      → Ends (λ v. document v ≡ document w ++ u) (λ v. document v ≡ document w) (t.type_text u w)
  pub backspace_lem :
      (n : ℕ) (w : W) (s m : Text)
      → document w ≡ s ++ m
      → length m ≡ n
      → Ends (λ v. document v ≡ s) (λ v. document v ≡ document w) (t.backspace n w)
  pub close_lem : (w : W) → document (t.close w).0 ≡ document w

-- `keystrokeComposer`: the provisional text, whether a composition is open, and the typer's world.
pub record Keystroke (W : Type 0) : Type 0 where
  pub marked : Text
  pub open_ : Bool
  pub world : W

-- `commonPrefix`: whole runes are compared, so the result ends at a rune boundary of both.
unfoldable pub common_prefix : Text → Text → Text
common_prefix [] b = []
common_prefix (c ∷ a) [] = []
common_prefix (c ∷ a) (d ∷ b) = if c == d then c ∷ common_prefix a b else []

module _ {W : Type 0} where
  abbrev continue : Call W → W × Option Fault → W × Option Fault
  continue k (w, none) = k w
  continue k (w, some e) = (w, some e)

  -- `if err := m(); err != nil { return err }`, then the rest.
  infixl 5 ◌>>◌
  abbrev ◌>>◌ : Call W → Call W → Call W
  ◌>>◌ m k w = continue k (m w)

module _ {W : Type 0} (t : Typer W) where
  -- A call of the typer, which leaves the composer's own fields alone.
  abbrev on_typer : Call W → Call (Keystroke W)
  on_typer m k = let (w, r) = m k.world in (record k { world = w }, r)

  -- `BeginComposition`
  unfoldable pub begin_composition : Call (Keystroke W)
  begin_composition k = (record k { marked = []; open_ = true }, none)

  -- In `SetMarkedText`, the part of the old text that the new one does not share is removed.
  abbrev erase : ℕ → Call (Keystroke W)
  erase n k = if ltb 0 n then on_typer (t.backspace n) k else (k, none)

  -- In `SetMarkedText`, after `typeText`.
  abbrev retyped : Text → Text → Keystroke W × Option Fault → Keystroke W × Option Fault
  retyped shared text (k, none) = (record k { marked = text }, none)
  retyped shared text (k, some e) = (record k { marked = shared }, some e)

  -- In `SetMarkedText`, the rest of the new text is typed.
  abbrev retype : Text → Text → Call (Keystroke W)
  retype shared text k =
      let addition = drop (length shared) text in
      retyped shared text
        (if is_empty addition then (k, none) else on_typer (t.type_text addition) k)

  -- `SetMarkedText`
  unfoldable pub set_marked_text : Text → Call (Keystroke W)
  set_marked_text text k =
      let shared = common_prefix k.marked text in
      if beq text k.marked
      then (k, none)
      else (erase (length k.marked - length shared) >> retype shared text) k

  abbrev forget : Call (Keystroke W)
  forget k = (record k { marked = [] }, none)

  -- In `CommitText`, the provisional text is removed.
  abbrev clear : Call (Keystroke W)
  clear k =
      let count = length k.marked in
      if ltb 0 count then (on_typer (t.backspace count) >> forget) k else (k, none)

  -- `CommitText`
  unfoldable pub commit_text : Text → Call (Keystroke W)
  commit_text text k = if is_empty text then (k, none) else (clear >> on_typer (t.type_text text)) k

  -- `EndComposition`
  unfoldable pub end_composition : Call (Keystroke W)
  end_composition k = (record k { marked = []; open_ = false }, none)

  -- `CancelComposition`
  unfoldable pub cancel_composition : Call (Keystroke W)
  cancel_composition k =
      let count = length k.marked in
      let k' = record k { marked = []; open_ = false } in
      if count == 0 then (k', none) else on_typer (t.backspace count) k'

  -- `Close`
  unfoldable pub close : Call (Keystroke W)
  close k =
      let count = length k.marked in
      let k' =
        if ltb 0 count
        then record k { marked = []; world = (t.backspace count k.world).0 }
        else k in
      on_typer t.close k'

  -- The adapter as a value of the interface `Platform`.
  abbrev pub keystroke_platform : Platform (Keystroke W)
  keystroke_platform = record {
    name = t.name;
    begin_composition = begin_composition;
    set_marked_text = set_marked_text;
    commit_text = commit_text;
    end_composition = end_composition;
    cancel_composition = cancel_composition;
    close = close;
  }
