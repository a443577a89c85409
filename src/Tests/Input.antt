-- ===== src/Tests/Input.antt =====
-- Runs of the composer on the emulated composition.
use local_dictation.Prelude.{
  Bool, true, false, [], ◌∷◌, ◌++◌, none, some, ◌≡◌, refl, inl, ◌-◌, ◌<◌, arith, length, take,
  if◌then◌else◌,
}
use local_dictation.Prelude.Int.{ℤ, pos}
use local_dictation.Text.{Text, codes, is_empty, beq, has_prefix, trim_prefix}
use local_dictation.Protocol.{Transcript}
use local_dictation.Input.Composer.{
  State, new_composer, apply, open_utterance, end_composition_locked, render, begin_locked,
  commit_delta, mark, seal, refuse,
}
use local_dictation.Keystroke.{
  Keystroke, keystroke_platform, begin_composition, commit_text, common_prefix,
}
use local_dictation.Input.Platform.{Platform, PlatformLaws, Ends}
use local_dictation.Input.Composer.Safety.{run, on_transcript, on_drop, on_finish}
use local_dictation.Input.Composer.Steps.{Returns, Follows}
use local_dictation.Input.Composer.Delivery.{Delivered, apply_delivers}
use local_dictation.Input.Composer.Replay.{At, NoNewer, Continues, deliver, deliver_newest}
use local_dictation.Input.Composer.Abandon.{retraction_is_final, dropped_is_final}
use local_dictation.Input.Composer.{drop_partial, cancel_composition_locked, stable_prefix_changed}
use local_dictation.Keystroke.{set_marked_text, cancel_composition, Typer}
use local_dictation.Keystroke.Laws.{Shows, Unsettled, keystroke_laws, set_marked-Ends}
use local_dictation.Keystroke.Cursor.{document_keeps_settled, partial_erasure_overreaches}
use local_dictation.Tests.Desk.{Desk, desk_typer, desk_laws}

abbrev event : Text → ℤ → Text → Text → Bool → Transcript
event id revision stable partial final = record {
  kind = codes "transcript";
  protocol_version = pos 1;
  utterance_id = id;
  revision = revision;
  stable = stable;
  partial = partial;
  final = final;
}

abbrev first : Transcript
first = event (codes "u1") (pos 1) (codes "we start") (codes " the") false

abbrev second : Transcript
second = event (codes "u1") (pos 2) (codes "we start the meeting") [] false

abbrev start : State (Keystroke Desk)
start = record {
  composer = record new_composer { live_preview = true };
  world = record { marked = []; open_ = false; world = record { text = codes "> "; script = [] } };
}

after_first :
    (apply (keystroke_platform desk_typer) first start).0.world.world.text ≡ codes "> we start the"
unfolding apply open_utterance end_composition_locked render begin_locked commit_delta mark seal
    begin_composition commit_text set_marked_text common_prefix is_empty beq has_prefix trim_prefix
after_first = refl

abbrev platform : Platform (Keystroke Desk)
platform = keystroke_platform desk_typer

-- The first call of the typer after this fails.
abbrev stuck : State (Keystroke Desk)
stuck = record {
  composer = start.composer;
  world = record {
    marked = codes "the";
    open_ = true;
    world = record { text = codes "> the"; script = true ∷ [] };
  };
}

-- A first event that is shown, and the start of the next.
abbrev shown : State (Keystroke Desk)
shown = (apply platform first start).0

document_keeps_settled_example :
    (u : Text) × ((run platform
        (on_transcript first ∷ on_drop ∷ on_finish ∷ [])
        stuck).world.world.text
      ≡ codes "> " ++ u)
document_keeps_settled_example =
    document_keeps_settled desk_laws (on_transcript first ∷ on_drop ∷ on_finish ∷ []) stuck
      (codes "> ") refl

start-Follows : Follows (keystroke_laws desk_laws) (codes "> " ++ []) [] start
unfolding keystroke_laws
start-Follows = record { shown = record { shown = refl; remembered = refl }; idle = λ _. refl }

apply_delivers_example :
    Returns
      (Delivered (keystroke_laws desk_laws) first (codes "> ") [] start.composer)
      (apply platform first start)
unfolding is_empty beq
apply_delivers_example =
    apply_delivers (keystroke_laws desk_laws) first (codes "> ") [] start refl refl (λ z. cc)
      start-Follows

shown-At :
    At (keystroke_laws desk_laws) (codes "> ") (pos 1) (codes "we start") (codes "u1") [] shown
unfolding keystroke_laws apply open_utterance end_composition_locked render begin_locked
    commit_delta mark seal begin_composition commit_text set_marked_text common_prefix is_empty beq
    has_prefix trim_prefix
shown-At = record {
  revision = refl;
  committed = refl;
  utterance = refl;
  abandoned = refl;
  provisional = codes " the";
  follows = record { shown = record { shown = refl; remembered = refl }; idle = λ z. cc };
}

first-Continues : Continues (codes "u1") first
first-Continues = record { same = refl; more = refl }

second-Continues : Continues (codes "u1") second
second-Continues = record { same = refl; more = refl }

first-NoNewer : NoNewer second first
first-NoNewer = record { older = omega arith; replay = λ z. ground arith }

-- The first event comes again, then the second, then the first once more.
deliver_newest_example :
    Returns
      (λ st'.
        ((n : Text) × PlatformLaws.Shows
            (keystroke_laws desk_laws)
            st'.world
            (codes "> " ++ second.stable)
            n)
        × (st'.composer.committed ≡ second.stable))
      (deliver platform (first ∷ second ∷ first ∷ []) shown)
unfolding is_empty beq
deliver_newest_example =
    deliver_newest (keystroke_laws desk_laws) second (first ∷ []) (first ∷ []) (codes "> ") (pos 1)
      (codes "we start") (codes "u1") [] shown
      (first-Continues, (second-Continues, (first-Continues, tt))) (first-NoNewer, tt)
      (first-NoNewer, tt) (inl refl) refl shown-At

-- The server takes back a word that is committed.
abbrev retracted : Transcript
retracted = event (codes "u1") (pos 2) (codes "we stop") [] false

-- An event of another utterance, and a late one of the first.
abbrev other : Transcript
other = event (codes "u2") (pos 3) (codes "then") [] false

abbrev late : Transcript
late = event (codes "u1") (pos 5) (codes "we stop it") [] false

retraction_is_final_example :
    let later = (deliver platform (other ∷ []) (apply platform retracted shown).0).0 in
    ((apply platform retracted shown).1 ≡ some (stable_prefix_changed 8))
    × ((apply platform late later).1 ≡ none)
    × ((apply platform late later).0.world ≡ later.world)
unfolding keystroke_laws apply open_utterance end_composition_locked render begin_locked
    commit_delta mark seal begin_composition commit_text set_marked_text common_prefix is_empty beq
    has_prefix trim_prefix deliver refuse cancel_composition_locked cancel_composition
retraction_is_final_example =
    retraction_is_final platform retracted late (other ∷ []) shown refl refl (λ z. cc) (λ z. cc)
      refl refl refl

dropped_is_final_example :
    let later = (deliver platform (other ∷ []) (drop_partial platform shown).0).0 in
    ((apply platform late later).1 ≡ none) × ((apply platform late later).0.world ≡ later.world)
unfolding apply open_utterance end_composition_locked render begin_locked commit_delta mark seal
    begin_composition commit_text set_marked_text common_prefix is_empty beq has_prefix trim_prefix
    drop_partial cancel_composition_locked cancel_composition deliver
dropped_is_final_example =
    dropped_is_final platform (other ∷ []) late shown refl (λ z. cc) refl refl refl

-- Provisional text that the typer has at the cursor.
abbrev typed : Keystroke Desk
typed = record {
  marked = codes "the meat";
  open_ = true;
  world = record { text = codes "> the meat"; script = [] };
}

set_marked-Ends_example :
    Ends
      (λ v. Shows desk_laws v (codes "> ") (codes "the meeting"))
      (Unsettled desk_laws (codes "> "))
      (set_marked_text desk_typer (codes "the meeting") typed)
set_marked-Ends_example =
    set_marked-Ends desk_laws (codes "the meeting") typed (codes "> ") (codes "the meat")
      (record { shown = refl; remembered = refl })

-- A typer that loses one character in its first call, and then fails it.
abbrev half_typer : Typer (Bool × Text)
half_typer = record {
  name = codes "half";
  type_text = λ u d. ((d.0, d.1 ++ u), none);
  backspace = λ n d.
      if d.0
      then ((false, take (length d.1 - 1) d.1), some (codes "refused"))
      else ((false, take (length d.1 - n) d.1), none);
  close = λ d. (d, none);
}

abbrev half_typed : Keystroke (Bool × Text)
half_typed = record { marked = codes "the"; open_ = true; world = (true, codes "> the") }

partial_erasure_overreaches_example :
    length ((cancel_composition half_typer (set_marked_text half_typer [] half_typed).0).0.world.1)
    < length (codes "> ")
partial_erasure_overreaches_example =
    partial_erasure_overreaches half_typer half_typed (λ d. d.1) (codes "> ") (codes "refused")
      (false, codes "> th") (false, codes ">") (λ z. cc) refl (omega arith) refl (omega arith)
