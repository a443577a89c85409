-- ===== src/LocalServer/Log.antt =====
-- The tail of a server's output, `tee.Write` of client/internal/localserver/server.go.
pub mod Lines
use local_dictation.Prelude.{
  ℕ, zero, suc, ◌+◌, ◌-◌, ◌≤◌, ◌==◌, List, [], ◌∷◌, ◌++◌, if◌then◌else◌, ltb, length, drop, ◌≡◌,
  refl, sym, ap, ◌∙◌, inl, inr, arith, append_assoc, append-nil, length-append, Bool-cases,
}
use local_dictation.Text.{Text, is_empty, trim_right, split}

-- `recentLogLines`
abbrev pub recent_log_lines : ℕ
recent_log_lines = 40

-- In `Write`, the lines that are not empty.
unfoldable pub filled_lines : List Text → List Text
filled_lines [] = []
filled_lines (line ∷ lines) =
    let rest = filled_lines lines in if is_empty line then rest else line ∷ rest

-- In `Write`, the lines of one write.
abbrev pub lines_of : Text → List Text
lines_of p = filled_lines (split (trim_right (λ c. c == 10) p) 10)

-- In `Write`, the cut to the last lines.
abbrev pub shortened : List Text → List Text
shortened recent =
    if ltb recent_log_lines (length recent)
    then drop (length recent - recent_log_lines) recent
    else recent

-- `Write`, as the tail changes
unfoldable pub write_log : Text → List Text → List Text
write_log p recent = shortened (recent ++ lines_of p)

-- The tail after the writes, in their order.
unfoldable pub write_all : List Text → List Text → List Text
write_all [] recent = recent
write_all (p ∷ ps) recent = write_all ps (write_log p recent)

-- Every line of the writes.
unfoldable pub all_lines : List Text → List Text
all_lines [] = []
all_lines (p ∷ ps) = lines_of p ++ all_lines ps

-- The last `n` of a list.
abbrev pub last_of : ℕ → List Text → List Text
last_of n xs = drop (length xs - n) xs

shortened-last_of : (xs : List Text) → shortened xs ≡ last_of recent_log_lines xs
shortened-last_of xs = elim (Bool-cases (ltb recent_log_lines (length xs))) [
  | inl long ↦ ground (arith, long)
  | inr short ↦
      let none_over : length xs - recent_log_lines ≡ 0 = ground (arith, short) in
      ap (λ b. if b then last_of recent_log_lines xs else xs) short
      ∙ ap (λ k. drop k xs) (sym none_over)
]

-- Lines that are cut off before the last ones make no difference to them.
last_of-drop :
    (n k : ℕ) (xs ys : List Text)
    → k + n ≤ length xs
    → last_of n (drop k xs ++ ys) ≡ last_of n (xs ++ ys)
last_of-drop n zero xs ys h = refl
last_of-drop n (suc k) [] ys h = absurd (omega (arith, h))
last_of-drop n (suc k) (x ∷ xs) ys h =
    let more : suc (length (xs ++ ys)) - n ≡ suc (length (xs ++ ys) - n) =
      omega (arith, h, length-append xs ys) in
    last_of-drop n k xs ys (omega (arith, h)) ∙ ap (λ j. drop j (x ∷ xs ++ ys)) (sym more)

last_of-last_of :
    (n : ℕ) (xs ys : List Text) → last_of n (last_of n xs ++ ys) ≡ last_of n (xs ++ ys)
last_of-last_of n xs ys = elim (Bool-cases (ltb n (length xs))) [
  | inl long ↦ last_of-drop n (length xs - n) xs ys (ground (arith, long))
  | inr short ↦
      let none_over : length xs - n ≡ 0 = ground (arith, short) in
      ap (λ k. last_of n (drop k xs ++ ys)) none_over
]

write_log-last_of :
    (p : Text) (recent : List Text)
    → write_log p recent ≡ last_of recent_log_lines (recent ++ lines_of p)
unfolding write_log
write_log-last_of p recent = shortened-last_of (recent ++ lines_of p)

pub write_all-last_of :
    (ps : List Text) (recent : List Text)
    → write_all ps (last_of recent_log_lines recent)
      ≡ last_of recent_log_lines (recent ++ all_lines ps)
unfolding write_all all_lines
write_all-last_of [] recent = ap (last_of recent_log_lines) (sym (append-nil recent))
write_all-last_of (p ∷ ps) recent =
    ap (write_all ps) (
      write_log-last_of p (last_of recent_log_lines recent)
      ∙ last_of-last_of recent_log_lines recent (lines_of p))
    ∙ write_all-last_of ps (recent ++ lines_of p)
    ∙ ap (last_of recent_log_lines) (append_assoc recent (lines_of p) (all_lines ps))
