-- ===== src/Settings/Saving.antt =====
-- `SaveTo` of client/internal/config/config.go over a map from paths to contents, every state of which is
-- kept. What `encoding/json` and the operating system answer is the record `Saver`.
pub mod Whole
use local_dictation.Prelude.{List, [], ◌∷◌, ◌++◌, Option, none, some, if◌then◌else◌, ◌⊎◌, inl, inr}
use local_dictation.Text.{Text, codes, beq}
use local_dictation.Settings.Config.{Config, current_version}

abbrev pub Bytes : Type 0
Bytes = Text

abbrev pub Disk : Type 0
Disk = Text → Option Bytes

-- The files now, and every state that they have been in, the latest first.
pub record History : Type 0 where
  pub now : Disk
  pub past : List Disk

abbrev pub change : Disk → History → History
change d h = record { now = d; past = h.now ∷ h.past }

abbrev pub put_bytes : Text → Bytes → Disk → Disk
put_bytes name content d q = if beq q name then some content else d q

-- `os.Remove`
abbrev pub removed : Text → Disk → Disk
removed name d q = if beq q name then none else d q

-- `os.Rename`
abbrev pub move_file : Text → Text → Disk → Disk
move_file from to d q = if beq q to then d from else if beq q from then none else d q

pub data SaveError : Type 0 where
  no_directory not_encoded no_temporary not_written not_flushed not_closed no_permissions
        not_installed :
      Text → SaveError

-- A write that fails has written a part; `remove_failed` is the error of the deferred removal, ignored.
pub record Saver : Type 0 where
  pub make_directory : Option Text
  pub encode : Config → Bytes ⊎ Text
  pub create_temporary : Text ⊎ Text
  pub write_failed : Option (Bytes × Text)
  pub sync : Option Text
  pub close : Option Text
  pub chmod : Option Text
  pub rename : Option Text
  pub remove_failed : Option Text

module _ (w : Saver) (path : Text) where
  -- In `SaveTo`, what the deferred removal does.
  abbrev pub cleared : Text → Option Text → History → History
  cleared name none h = change (removed name h.now) h
  cleared name (some e) h = h

  -- In `SaveTo`, the deferred removal.
  abbrev pub left : Text → Option SaveError → History → History × Option SaveError
  left name e h = (cleared name w.remove_failed h, e)

  -- In `SaveTo`, the rename.
  abbrev pub put_in_place : Text → Option Text → History → History × Option SaveError
  put_in_place name (some e) h = left name (some (not_installed e)) h
  put_in_place name none h = left name none (change (move_file name path h.now) h)

  -- In `SaveTo`, the permissions.
  abbrev pub permitted : Text → Option Text → History → History × Option SaveError
  permitted name (some e) h = left name (some (no_permissions e)) h
  permitted name none h = put_in_place name w.rename h

  -- In `SaveTo`, the close.
  abbrev pub shut : Text → Option Text → History → History × Option SaveError
  shut name (some e) h = left name (some (not_closed e)) h
  shut name none h = permitted name w.chmod h

  -- In `SaveTo`, the flush.
  abbrev pub flushed : Text → Option Text → History → History × Option SaveError
  flushed name (some e) h = left name (some (not_flushed e)) h
  flushed name none h = shut name w.close h

  -- In `SaveTo`, the write.
  abbrev pub put_raw : Text → Bytes → Option (Bytes × Text) → History → History × Option SaveError
  put_raw name raw (some (part, e)) h =
      left name (some (not_written e)) (change (put_bytes name part h.now) h)
  put_raw name raw none h = flushed name w.sync (change (put_bytes name raw h.now) h)

  -- In `SaveTo`, the temporary file.
  abbrev pub temporary_made : Bytes → Text ⊎ Text → History → History × Option SaveError
  temporary_made raw (inr e) h = (h, some (no_temporary e))
  temporary_made raw (inl name) h =
      put_raw name raw w.write_failed (change (put_bytes name [] h.now) h)

  -- In `SaveTo`, the bytes.
  abbrev pub encoded_as : Bytes ⊎ Text → History → History × Option SaveError
  encoded_as (inr e) h = (h, some (not_encoded e))
  encoded_as (inl json) h = temporary_made (json ++ 10 ∷ []) w.create_temporary h

  -- In `SaveTo`, the directory.
  abbrev pub in_directory : Config → Option Text → History → History × Option SaveError
  in_directory c (some e) h = (h, some (no_directory e))
  in_directory c none h = encoded_as (w.encode (record c { version = current_version })) h

  -- `SaveTo`
  unfoldable pub save_to : Config → History → History × Option SaveError
  save_to c h = in_directory c w.make_directory h
