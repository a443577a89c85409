-- ===== src/Models/Install/Folder.antt =====
-- The directory of the models: files and flat folders by their names.
use local_dictation.Prelude.{
  Bool, true, false, List, [], ◌∷◌, Option, none, some, if◌then◌else◌, ◌≡◌, ◌≢◌, refl, sym, ◌∙◌,
  inl, inr, arith, Bool-cases,
}
use local_dictation.Text.{Text, beq}
use local_dictation.Text.Laws.{beq_iff, beq_refl}
use local_dictation.Update.Manifest.{Bytes}

pub data Entry : Type 0 where
  file : Bytes → Entry
  folder : List (Text × Bytes) → Entry

abbrev pub Disk : Type 0
Disk = Text → Option Entry

-- The directory now, and every state that it has been in, the latest first.
pub record Place : Type 0 where
  pub now : Disk
  pub past : List Disk

-- A change of the directory.
abbrev pub write : Disk → Place → Place
write d p = record { now = d; past = p.now ∷ p.past }

-- `os.Rename`
abbrev pub move : Text → Text → Disk → Disk
move from to d q = if beq q to then d from else if beq q from then none else d q

-- `os.RemoveAll`
abbrev pub remove : Text → Disk → Disk
remove name d q = if beq q name then none else d q

-- `os.MkdirTemp`
abbrev pub new_folder : Text → Disk → Disk
new_folder name d q = if beq q name then some (folder []) else d q

-- A file of a folder.
unfoldable pub file_in : Text → List (Text × Bytes) → Option Bytes
file_in name [] = none
file_in name ((n, content) ∷ files) =
    let rest = file_in name files in if beq n name then some content else rest

-- The files of a folder with one written.
unfoldable pub put_entry : Text → Bytes → List (Text × Bytes) → List (Text × Bytes)
put_entry name content [] = (name, content) ∷ []
put_entry name content ((n, c) ∷ files) =
    let rest = put_entry name content files in
    if beq n name then (name, content) ∷ files else (n, c) ∷ rest

-- A file written into what should be a folder.
abbrev pub with_file : Text → Bytes → Option Entry → Option Entry
with_file name content (some (folder files)) = some (folder (put_entry name content files))
with_file name content other = other

-- `os.Create` and what is written to the file.
abbrev pub put_file : Text → Text → Bytes → Disk → Disk
put_file in_folder name content d q = if beq q in_folder then with_file name content (d q) else d q

pub beq_differ : (p q : Text) → p ≢ q → beq p q ≡ false
beq_differ p q ne = elim (Bool-cases (beq p q)) [
  | inl e ↦ absurd (ne ((beq_iff p q).0 e))
  | inr e ↦ e
]

pub remove_same : (name : Text) (d : Disk) → remove name d name ≡ none
remove_same name d = ground (arith, beq_refl name)

pub remove_other : (name q : Text) (d : Disk) → q ≢ name → remove name d q ≡ d q
remove_other name q d ne = ground (arith, beq_differ q name ne)

pub new_folder_same : (name : Text) (d : Disk) → new_folder name d name ≡ some (folder [])
new_folder_same name d = ground (arith, beq_refl name)

pub new_folder_other : (name q : Text) (d : Disk) → q ≢ name → new_folder name d q ≡ d q
new_folder_other name q d ne = ground (arith, beq_differ q name ne)

pub put_file_other :
    (f name q : Text) (content : Bytes) (d : Disk) → q ≢ f → put_file f name content d q ≡ d q
put_file_other f name q content d ne = ground (arith, beq_differ q f ne)

pub put_file_same :
    (f name : Text) (content : Bytes) (d : Disk)
    → put_file f name content d f ≡ with_file name content (d f)
put_file_same f name content d = ground (arith, beq_refl f)

pub move_to : (from to : Text) (d : Disk) → move from to d to ≡ d from
move_to from to d = ground (arith, beq_refl to)

pub move_from : (from to : Text) (d : Disk) → from ≢ to → move from to d from ≡ none
move_from from to d ne = ground (arith, beq_refl from, beq_differ from to ne)

pub move_other : (from to q : Text) (d : Disk) → q ≢ from → q ≢ to → move from to d q ≡ d q
move_other from to q d nf nt = ground (arith, beq_differ q from nf, beq_differ q to nt)

pub file_in-put_entry :
    (name : Text) (content : Bytes) (files : List (Text × Bytes))
    → file_in name (put_entry name content files) ≡ some content
unfolding file_in put_entry
file_in-put_entry name content [] = ground (arith, beq_refl name)
file_in-put_entry name content ((n, c) ∷ files) =
    ground (arith, beq_refl name, file_in-put_entry name content files)

pub file_in-put_entry_other :
    (q name : Text) (content : Bytes) (files : List (Text × Bytes))
    → q ≢ name
    → file_in q (put_entry name content files) ≡ file_in q files
unfolding file_in put_entry
file_in-put_entry_other q name content [] ne = ground (arith, beq_differ name q (λ e. ne (sym e)))
file_in-put_entry_other q name content ((n, c) ∷ files) ne =
    chosen (beq n name) refl (file_in-put_entry_other q name content files ne)
  where
    chosen :
        (b : Bool)
        → beq n name ≡ b
        → file_in q (put_entry name content files) ≡ file_in q files
        → file_in q (if b then (name, content) ∷ files else (n, c) ∷ put_entry name content files)
          ≡ file_in q ((n, c) ∷ files)
    chosen true e h = ground (
      arith,
      beq_differ name q (λ k. ne (sym k)),
      beq_differ n q (λ k. ne (sym k ∙ (beq_iff n name).0 e)),
    )
    chosen false e h = ground (arith, h)
