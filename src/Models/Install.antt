-- ===== src/Models/Install.antt =====
-- client/internal/models/install.go. The directory of the models is a map of names to files and flat
-- folders; a state of it keeps those before it, since the process may be killed in any of them. What
-- the network and the operating system answer is the record `World`. Reports of progress are left out,
-- and a removal always removes.
pub mod Names
pub mod Folder
use local_dictation.Prelude.{
  ℕ, suc, Bool, true, false, not, ◌&&◌, ◌||◌, ◌==◌, List, [], ◌∷◌, ◌++◌, Option, none, some,
  is_some, if◌then◌else◌, ◌⊎◌, inl, inr,
}
use local_dictation.Text.{Text, codes, beq}
use local_dictation.Update.Manifest.{Bytes}
use local_dictation.Models.Catalogue.{Model, is_file}
use local_dictation.Models.Install.Names.{Listing, sort_texts, repository_files}
use local_dictation.Models.Install.Folder.{
  Entry, file, folder, Disk, Place, write, move, remove, new_folder, put_file,
}

-- What a request for a file answers: no response, or a status, a body, and whether it broke off.
pub data Reply : Type 0 where
  no_reply : Text → Reply
  reply : ℕ → Bytes → Bool → Reply

pub record World : Type 0 where
  pub windows : Bool
  pub endpoint : Text
  pub make_directory : Option Text
  pub listing : Text → Listing
  pub make_staging : Text ⊎ Text
  pub cancelled : ℕ → Bool
  pub fetch : Text → Reply
  pub create : Text → Option Text
  pub sync : Text → Option Text
  pub write_sums : Option Text
  pub move_aside : Option Text
  pub move_in : Option Text
  pub move_back : Option Text
  pub hash : Bytes → Text
  pub utf8 : Text → Bytes

pub data Trouble : Type 0 where
  unreachable : Text → Trouble
  bad_status : ℕ → Trouble
  no_file : Text → Trouble
  broken_off : Trouble
  not_synced : Text → Trouble
  no_directory no_staging : Text → Trouble
  no_listing : Text → Trouble
  nothing_listed cancelled : Trouble
  of_file : Text → Trouble → Trouble
  no_sums not_aside not_installed : Text → Trouble

-- Checksums by name, a map.
abbrev pub Sums : Type 0
Sums = List (Text × Text)

abbrev pub put_sum : Text → Text → Sums → Sums
put_sum name sum [] = (name, sum) ∷ []
put_sum name sum ((n, s) ∷ rest) =
    let later = put_sum name sum rest in if beq n name then (name, sum) ∷ rest else (n, s) ∷ later

abbrev pub sum_of : Text → Sums → Text
sum_of name [] = []
sum_of name ((n, s) ∷ rest) = let later = sum_of name rest in if beq n name then s else later

abbrev pub names_of : Sums → List Text
names_of [] = []
names_of ((n, s) ∷ rest) = n ∷ names_of rest

-- In `writeSums`, the lines.
abbrev pub sum_lines : Sums → List Text → Text
sum_lines sums [] = []
sum_lines sums (name ∷ names) =
    (sum_of name sums ++ codes "  " ++ name ++ 10 ∷ []) ++ sum_lines sums names

-- In `writeSums`, the text of the file.
unfoldable pub sums_text : Sums → Text
sums_text sums = sum_lines sums (sort_texts (names_of sums))

module _ (w : World) where
  -- In `download`, after the copy.
  abbrev pub synced : Bytes → Option Text → Place → Place × (Text ⊎ Trouble)
  synced body none p = (p, inl (w.hash body))
  synced body (some e) p = (p, inr (not_synced e))

  -- In `download`, the copy.
  abbrev pub copied : Text → Text → Bytes → Bool → Place → Place × (Text ⊎ Trouble)
  copied staging name body true p = (write (put_file staging name body p.now) p, inr broken_off)
  copied staging name body false p =
      synced body (w.sync name) (write (put_file staging name body p.now) p)

  -- In `download`, from the file on.
  abbrev pub created : Text → Text → Bytes → Bool → Option Text → Place → Place × (Text ⊎ Trouble)
  created staging name body broken (some e) p = (p, inr (no_file e))
  created staging name body broken none p =
      copied staging name body broken (write (put_file staging name [] p.now) p)

  -- In `download`, from the response on.
  abbrev pub answered : Text → Text → Reply → Place → Place × (Text ⊎ Trouble)
  answered staging name (no_reply e) p = (p, inr (unreachable e))
  answered staging name (reply status body broken) p =
      if status == 200
      then created staging name body broken (w.create name) p
      else (p, inr (bad_status status))

  -- In `Install`, the address of a file.
  abbrev pub file_url : Text → Text → Text
  file_url repo name = w.endpoint ++ codes "/" ++ repo ++ codes "/resolve/main/" ++ name

  -- In `Install`, one file of the loop, before the next ones.
  abbrev pub followed :
      Text
      → (Text → Place → Place × (Sums ⊎ Trouble))
      → Place × (Text ⊎ Trouble)
      → Place × (Sums ⊎ Trouble)
  followed name next (q, inr e) = (q, inr (of_file name e))
  followed name next (q, inl sum) = next sum q

  -- In `Install`, the loop over the files.
  abbrev pub fetch_files : Text → Text → List Text → ℕ → Sums → Place → Place × (Sums ⊎ Trouble)
  fetch_files repo staging [] i sums p = (p, inl sums)
  fetch_files repo staging (name ∷ names) i sums p =
      if w.cancelled i
      then (p, inr cancelled)
      else followed name (λ sum q. fetch_files repo staging names (suc i) (put_sum name sum sums) q)
          (answered staging name (w.fetch (file_url repo name)) p)

  -- In `Install`, where the previous model is put aside.
  abbrev pub aside : Text → Text
  aside name = name ++ codes ".replaced"

  -- In `Install`, once the place is free.
  abbrev pub moved_in : Text → Text → Bool → Option Text → Place → Place × Option Trouble
  moved_in staging name replaces none p =
      let q = write (move staging name p.now) p in
      (if replaces then write (remove (aside name) q.now) q else q, none)
  moved_in staging name replaces (some e) p = (
    if replaces && not (is_some w.move_back) then write (move (aside name) name p.now) p else p,
    some (not_installed e),
  )

  -- In `Install`, the model that is there already.
  abbrev pub replacing : Text → Text → Option Text → Place → Place × Option Trouble
  replacing staging name (some e) p = (p, some (not_aside e))
  replacing staging name none p =
      moved_in staging name true w.move_in (write (move name (aside name) p.now) p)

  -- In `Install`, after the checksums have been written.
  abbrev pub complete : Text → Text → Place → Place × Option Trouble
  complete staging name p =
      if is_some (p.now name)
      then replacing staging name w.move_aside (write (remove (aside name) p.now) p)
      else moved_in staging name false w.move_in p

  -- In `Install`, the checksums beside the files.
  abbrev pub summed : Text → Text → Sums → Option Text → Place → Place × Option Trouble
  summed staging name sums (some e) p = (p, some (no_sums e))
  summed staging name sums none p =
      complete staging name
        (write (put_file staging (codes "SHA256SUMS") (w.utf8 (sums_text sums)) p.now) p)

  -- In `Install`, after all files have been fetched.
  abbrev pub fetched : Text → Text → Place × (Sums ⊎ Trouble) → Place × Option Trouble
  fetched staging name (p, inr e) = (p, some e)
  fetched staging name (p, inl sums) = summed staging name sums w.write_sums p

  -- `defer os.RemoveAll(staging)`
  abbrev pub cleaned : Text → Place × Option Trouble → Place × Option Trouble
  cleaned staging (p, e) = (write (remove staging p.now) p, e)

  -- In `Install`, the staging directory.
  abbrev pub stage : Model → List Text → Text ⊎ Text → Place → Place × Option Trouble
  stage m files (inr e) p = (p, some (no_staging e))
  stage m files (inl staging) p = cleaned staging (
      fetched staging m.name
        (fetch_files m.repo staging files 0 [] (write (new_folder staging p.now) p)))

  -- In `Install`, from the list of files on.
  abbrev pub listed : Model → List Text ⊎ Text → Place → Place × Option Trouble
  listed m (inr e) p = (p, some (no_listing e))
  listed m (inl []) p = (p, some nothing_listed)
  listed m (inl (f ∷ fs)) p = stage m (f ∷ fs) w.make_staging p

  -- In `Install`, from the directory of the models on.
  abbrev pub made : Model → Option Text → Place → Place × Option Trouble
  made m (some e) p = (p, some (no_directory e))
  made m none p = listed m (repository_files w.windows (w.listing m.repo)) p

  -- `Install` of a model that is a directory
  unfoldable pub install_folder : Model → Place → Place × Option Trouble
  install_folder m p = made m w.make_directory p
