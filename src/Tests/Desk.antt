-- ===== src/Tests/Desk.antt =====
-- A typer over a plain text whose calls fail where a script says so.
use local_dictation.Prelude.{
  ℕ, ◌-◌, Bool, true, false, List, [], ◌∷◌, ◌++◌, Option, none, some, ◌≡◌, refl, ap, sym, ◌∙◌,
  arith, length, take, length-append, take-length-append,
}
use mathlib.Core.Path.{subst}
use local_dictation.Text.{Text, codes}
use local_dictation.Input.Platform.{Fault, Ends}
use local_dictation.Keystroke.{Typer, TyperLaws}

-- `true` in the script makes a call fail; past its end every call succeeds.
pub record Desk : Type 0 where
  pub text : Text
  pub script : List Bool

abbrev pub on_desk : (Text → Text) → List Bool → Text → Desk × Option Fault
on_desk f [] t = (record { text = f t; script = [] }, none)
on_desk f (true ∷ fs) t = (record { text = t; script = fs }, some (codes "refused"))
on_desk f (false ∷ fs) t = (record { text = f t; script = fs }, none)

abbrev pub desk_typer : Typer Desk
desk_typer = record {
  name = codes "desk";
  type_text = λ u d. on_desk (λ t. t ++ u) d.script d.text;
  backspace = λ n d. on_desk (λ t. take (length t - n) t) d.script d.text;
  close = λ d. (d, none);
}

pub on_desk-Ends :
    (f : Text → Text) (fs : List Bool) (t : Text)
    → Ends (λ (d : Desk). d.text ≡ f t) (λ d. d.text ≡ t) (on_desk f fs t)
on_desk-Ends f [] t = refl
on_desk-Ends f (true ∷ fs) t = refl
on_desk-Ends f (false ∷ fs) t = refl

take-append : (s m : Text) → take (length (s ++ m) - length m) (s ++ m) ≡ s
take-append s m =
    let n : length (s ++ m) - length m ≡ length s = omega (arith, length-append s m) in
    ap (λ k. take k (s ++ m)) n ∙ take-length-append s m

pub backspace-Ends :
    (n : ℕ) (d : Desk) (s m : Text)
    → d.text ≡ s ++ m
    → length m ≡ n
    → Ends (λ (v : Desk). v.text ≡ s) (λ v. v.text ≡ d.text) (desk_typer.backspace n d)
backspace-Ends n d s m h e =
    let cut : take (length d.text - n) d.text ≡ s =
      ap (λ (t : Text). take (length t - n) t) h
      ∙ ap (λ k. take (length (s ++ m) - k) (s ++ m)) (sym e)
      ∙ take-append s m in
    subst (λ t. Ends (λ (v : Desk). v.text ≡ t) (λ v. v.text ≡ d.text) (desk_typer.backspace n d))
      cut (on_desk-Ends (λ t. take (length t - n) t) d.script d.text)

abbrev pub desk_laws : TyperLaws desk_typer
desk_laws = record {
  document = λ d. d.text;
  type_lem = λ u d. on_desk-Ends (λ t. t ++ u) d.script d.text;
  backspace_lem = backspace-Ends;
  close_lem = λ d. refl;
}
