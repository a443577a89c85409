-- ===== src/LocalServer/Log/Lines.antt =====
-- The lines of what a server writes, as they stand in it.
use mathlib.Core.Path.{subst}
use local_dictation.Prelude.{
  ℕ, false, ◌==◌, ==_iff, List, [], ◌∷◌, ◌++◌, if◌then◌else◌, ◌≡◌, ◌≢◌, inl, inr, refl, sym, ap,
  arith, All, append_assoc, Bool-cases, if_cases,
}
use local_dictation.Text.{Text, is_empty, contains, trim_right, split}
use local_dictation.Text.Laws.{is_empty_iff}
use local_dictation.LocalServer.Log.{
  recent_log_lines, filled_lines, lines_of, last_of, write_all, all_lines, write_all-last_of,
}

-- Where a stretch of characters ends: at the end of the text or at a newline.
pub data Ended : Text → Type 0 where
  at_end : Ended []
  at_newline : (s : Text) → Ended (10 ∷ s)

-- `Lines p ls`: the lines `ls` are the stretches of `p` between its newlines that are not empty.
pub data Lines : Text → List Text → Type 0 where
  no_line : Lines [] []
  newline : (s : Text) (ls : List Text) → Lines s ls → Lines (10 ∷ s) ls
  line :
      (l s : Text) (ls : List Text)
      → l ≢ []
      → contains l 10 ≡ false
      → Ended s
      → Lines s ls
      → Lines (l ++ s) (l ∷ ls)

-- The lines of several writes; a line that is written in two parts counts as two.
pub data Written : List Text → List Text → Type 0 where
  nothing : Written [] []
  written :
      (p : Text) (ps ls more : List Text)
      → Lines p ls
      → Written ps more
      → Written (p ∷ ps) (ls ++ more)

-- The first part of a text that is split, and the rest.
record Parted (s : Text) : Type 0 where
  pub first : Text
  pub others : List Text
  pub parts : split s 10 ≡ first ∷ others
  pub rest : Text
  pub whole : s ≡ first ++ rest
  pub plain : contains first 10 ≡ false
  pub ended : Ended rest
  pub lines : Lines rest (filled_lines others)

Parted-Lines : (s : Text) → Parted s → Lines s (filled_lines (split s 10))
unfolding filled_lines
Parted-Lines s c =
    subst (λ x. Lines x (filled_lines (split s 10))) (sym c.whole)
      (subst (λ x. Lines (c.first ++ c.rest) (filled_lines x)) (sym c.parts)
        (if_cases (Lines (c.first ++ c.rest)) (is_empty c.first) (filled_lines c.others)
          (c.first ∷ filled_lines c.others)
          (λ e.
            subst (λ x. Lines (x ++ c.rest) (filled_lines c.others))
              (sym ((is_empty_iff c.first).0 e)) c.lines)
          (λ e.
            line c.first c.rest (filled_lines c.others)
              (λ k. ground (arith, e, (is_empty_iff c.first).1 k)) c.plain c.ended c.lines)))

split-Parted : (s : Text) → Parted s
unfolding split contains filled_lines
split-Parted [] = record {
  first = [];
  others = [];
  parts = refl;
  rest = [];
  whole = refl;
  plain = refl;
  ended = at_end;
  lines = no_line;
}
split-Parted (d ∷ s) =
    let c = split-Parted s in
    elim (Bool-cases (d == 10)) [
      | inl e ↦ record {
        first = [];
        others = split s 10;
        parts = ground (arith, e);
        rest = d ∷ s;
        whole = refl;
        plain = refl;
        ended = subst (λ k. Ended (k ∷ s)) (sym ((==_iff d 10).0 e)) (at_newline s);
        lines =
            subst (λ k. Lines (k ∷ s) (filled_lines (split s 10))) (sym ((==_iff d 10).0 e))
              (newline s (filled_lines (split s 10)) (Parted-Lines s c));
      }
      | inr e ↦ record {
        first = d ∷ c.first;
        others = c.others;
        parts = ground (arith, e, c.parts);
        rest = c.rest;
        whole = ap (◌∷◌ d) c.whole;
        plain = ground (arith, e, c.plain);
        ended = c.ended;
        lines = c.lines;
      }
    ]

abbrev IsNewline : ℕ → Type 0
IsNewline c = c ≡ 10

newlines-Lines : (n : Text) → All IsNewline n → Lines n []
newlines-Lines [] h = no_line
newlines-Lines (c ∷ n) (e, h) =
    subst (λ k. Lines (k ∷ n) []) (sym e) (newline n [] (newlines-Lines n h))

newlines-Ended : (n : Text) → All IsNewline n → Ended n
newlines-Ended [] h = at_end
newlines-Ended (c ∷ n) (e, h) = subst (λ k. Ended (k ∷ n)) (sym e) (at_newline n)

append-Ended : (s n : Text) → All IsNewline n → Ended s → Ended (s ++ n)
append-Ended _ n h at_end = newlines-Ended n h
append-Ended _ n h (at_newline s) = at_newline (s ++ n)

-- Newlines at the end make no line.
append-Lines : (s n : Text) (ls : List Text) → All IsNewline n → Lines s ls → Lines (s ++ n) ls
append-Lines _ n _ h no_line = newlines-Lines n h
append-Lines _ n ls h (newline s _ k) = newline (s ++ n) ls (append-Lines s n ls h k)
append-Lines _ n _ h (line l s ls ne plain e k) =
    subst (λ x. Lines x (l ∷ ls)) (sym (append_assoc l s n))
      (line l (s ++ n) ls ne plain (append-Ended s n h e) (append-Lines s n ls h k))

-- What is cut off `p` where `t` is left.
record Trimmed (p t : Text) : Type 0 where
  pub off : Text
  pub newlines : All IsNewline off
  pub whole : p ≡ t ++ off

only_newlines : (c : ℕ) (p : Text) → Trimmed p [] → Trimmed (c ∷ p) (if c == 10 then [] else c ∷ [])
only_newlines c p k =
    if_cases (Trimmed (c ∷ p)) (c == 10) [] (c ∷ [])
      (λ e. record {
        off = c ∷ k.off;
        newlines = ((==_iff c 10).0 e, k.newlines);
        whole = ap (◌∷◌ c) k.whole;
      })
      (λ e. record { off = k.off; newlines = k.newlines; whole = ap (◌∷◌ c) k.whole })

trim_right-Trimmed : (p : Text) → Trimmed p (trim_right (λ c. c == 10) p)
unfolding trim_right
trim_right-Trimmed [] = record { off = []; newlines = tt; whole = refl }
trim_right-Trimmed (c ∷ p) = step (trim_right (λ k. k == 10) p) (trim_right-Trimmed p)
  where
    step :
        (t : Text)
        → Trimmed p t
        → Trimmed (c ∷ p) (elim t [ [] ↦ if c == 10 then [] else c ∷ [] | d ∷ u ↦ c ∷ d ∷ u ])
    step [] k = only_newlines c p k
    step (d ∷ u) k = record { off = k.off; newlines = k.newlines; whole = ap (◌∷◌ c) k.whole }

lines_of-Lines : (p : Text) → Lines p (lines_of p)
lines_of-Lines p =
    let t = trim_right (λ (c : ℕ). c == 10) p in
    let k = trim_right-Trimmed p in
    subst (λ x. Lines x (lines_of p)) (sym k.whole)
      (append-Lines t k.off (lines_of p) k.newlines (Parted-Lines t (split-Parted t)))

all_lines-Written : (ps : List Text) → Written ps (all_lines ps)
unfolding all_lines
all_lines-Written [] = nothing
all_lines-Written (p ∷ ps) =
    written p ps (lines_of p) (all_lines ps) (lines_of-Lines p) (all_lines-Written ps)

-- Whatever a server writes, from its start on, the tail that is kept for the window is the last 40 of the
-- lines of its writes that are not empty, where a line that is written in two parts counts as two.
pub tail_of_writes :
    (ps : List Text)
    → (all : List Text) × Written ps all × (write_all ps [] ≡ last_of recent_log_lines all)
tail_of_writes ps = (all_lines ps, all_lines-Written ps, write_all-last_of ps [])
