-- ===== src/Update/Sums.antt =====
-- `expectedHash` of client/internal/update/github.go: a file of checksums and the line it looks for.
use local_dictation.Prelude.{◌==◌, List, [], ◌∷◌, Option, none, some, if◌then◌else◌, ltb, length}
use local_dictation.Text.{Text, codes, beq, trim_prefix, is_space, split}
use local_dictation.Update.Manifest.{Bytes}

-- `strings.Fields(s)`: the runs of characters that are not white space.
unfoldable pub fields : Text → List Text
fields [] = []
fields (c ∷ s) =
    let rest = fields s in
    if is_space c then rest else elim s [
      | [] ↦ (c ∷ []) ∷ rest
      | d ∷ t ↦
          if is_space d
          then (c ∷ []) ∷ rest
          else elim rest [ [] ↦ (c ∷ []) ∷ [] | f ∷ fs ↦ (c ∷ f) ∷ fs ]
    ]

-- In `bufio.ScanLines`, a carriage return at the end of a line.
unfoldable pub without_return : Bytes → Bytes
without_return [] = []
without_return (c ∷ []) = if c == 13 then [] else c ∷ []
without_return (c ∷ d ∷ s) = c ∷ without_return (d ∷ s)

-- The tokens that the scanner finds among the pieces between newlines: the last piece is one only where
-- it is not empty, and a piece that does not fit the buffer of 64 KiB ends the scan.
abbrev pub tokens : List Bytes → List Bytes
tokens [] = []
tokens ([] ∷ []) = []
tokens (p ∷ ps) =
    let rest = tokens ps in if ltb (length p) 65536 then without_return p ∷ rest else []

-- `bufio.Scanner` with `ScanLines`.
unfoldable pub scan_lines : Bytes → List Bytes
scan_lines raw = tokens (split raw 10)

-- In `expectedHash`, one line.
abbrev pub sum_of_line : Text → List Text → Option Text
sum_of_line name (digest ∷ file ∷ []) =
    if beq (trim_prefix file (codes "*")) name then some digest else none
sum_of_line name _ = none

-- In `expectedHash`, the digest of a line, or else what the later lines give.
abbrev pub first_given : Text → Option Text → Text
first_given rest none = rest
first_given rest (some digest) = digest

-- In `expectedHash`, the loop; an empty text where no line is the file's.
abbrev pub sum_among : (Bytes → Text) → Text → List Bytes → Text
sum_among text name [] = []
sum_among text name (line ∷ lines) =
    first_given (sum_among text name lines) (sum_of_line name (fields (text line)))

-- `expectedHash`
unfoldable pub expected_hash : (Bytes → Text) → Bytes → Text → Text
expected_hash text sums name = sum_among text name (scan_lines sums)
