-- ===== src/Models/Install/Names.antt =====
-- `repositoryFiles` and `skipped` of client/internal/models/install.go.
use local_dictation.Prelude.{
  ℕ, Bool, true, false, not, ◌&&◌, ◌||◌, ◌==◌, List, [], ◌∷◌, Option, none, some, ltb,
  if◌then◌else◌, ◌⊎◌, inl, inr,
}
use local_dictation.Prelude.Int.{pos}
use local_dictation.Text.{Text, codes, is_empty, beq, has_prefix, contains}
use local_dictation.Text.Decimal.{decimal}

-- What the repository answers: no response, or a status and, where it is JSON, the names in it.
pub data Listing : Type 0 where
  no_listing : Text → Listing
  listing : ℕ → Option (List Text) → Listing

-- `filepath.Base(name)` of a name that is not empty and has no separators: Windows takes a volume off.
abbrev pub base_name : Bool → Text → Text
base_name true (c ∷ d ∷ rest) =
    if d == b':' then (if is_empty rest then b'\\' ∷ [] else rest) else c ∷ d ∷ rest
base_name _ name = name

-- `skipped`
unfoldable pub skipped : Bool → Text → Bool
skipped windows name =
    is_empty name
    || has_prefix name (codes ".")
    || beq name (codes "README.md")
    || (contains name b'/' || contains name b'\\')
    || not (beq name (base_name windows name))

-- `a < b` on strings
unfoldable pub lt_text : Text → Text → Bool
lt_text [] [] = false
lt_text [] (d ∷ t) = true
lt_text (c ∷ s) [] = false
lt_text (c ∷ s) (d ∷ t) = ltb c d || c == d && lt_text s t

-- Insertion, for `sort.Strings`.
unfoldable pub insert_text : Text → List Text → List Text
insert_text x [] = x ∷ []
insert_text x (y ∷ ys) = let rest = insert_text x ys in if lt_text y x then y ∷ rest else x ∷ y ∷ ys

-- `sort.Strings`
unfoldable pub sort_texts : List Text → List Text
sort_texts [] = []
sort_texts (x ∷ xs) = insert_text x (sort_texts xs)

-- In `repositoryFiles`, the loop.
unfoldable pub kept : Bool → List Text → List Text
kept windows [] = []
kept windows (name ∷ names) =
    let rest = kept windows names in if skipped windows name then rest else name ∷ rest

-- In `repositoryFiles`, the decoded answer.
abbrev pub decoded : Bool → Option (List Text) → List Text ⊎ Text
decoded windows none = inr (codes "read the file list")
decoded windows (some names) = inl (sort_texts (kept windows names))

-- `repositoryFiles`
unfoldable pub repository_files : Bool → Listing → List Text ⊎ Text
repository_files windows (no_listing e) = inr e
repository_files windows (listing status names) =
    if status == 200 then decoded windows names else inr (decimal (pos status))
