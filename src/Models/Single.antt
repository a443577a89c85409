-- ===== src/Models/Single.antt =====
-- `Install` of a model that is one file, and `downloadTo`, of client/internal/models/install.go.
use local_dictation.Prelude.{Bool, true, false, [], ◌==◌, Option, none, some, if◌then◌else◌, ◌++◌}
use local_dictation.Text.{Text, codes, beq}
use local_dictation.Update.Manifest.{Bytes}
use local_dictation.Models.Catalogue.{Model, is_file}
use local_dictation.Models.Install.{
  Reply, no_reply, reply, World, Trouble, no_directory, no_file, broken_off, not_synced,
  unreachable, bad_status, not_installed, install_folder,
}
use local_dictation.Models.Install.Folder.{file, Disk, Place, write, move, remove}

-- `os.Create` and what is written to the file.
abbrev pub put_top : Text → Bytes → Disk → Disk
put_top name content d q = if beq q name then some (file content) else d q

abbrev pub partial_name : Text → Text
partial_name name = name ++ codes ".partial"

module _ (w : World) where
  -- In `downloadTo`, after `download`.
  abbrev pub renamed : Text → Option Trouble → Place → Place × Option Trouble
  renamed name (some e) p = (write (remove (partial_name name) p.now) p, some e)
  renamed name none p = elim w.move_in [
    | some e ↦ (p, some (not_installed e))
    | none ↦ (write (move (partial_name name) name p.now) p, none)
  ]

  -- In `download` of the file, after the copy.
  abbrev pub copied_top : Text → Bytes → Bool → Place → Place × Option Trouble
  copied_top name body true p = renamed name (some broken_off) p
  copied_top name body false p = elim (w.sync (partial_name name)) [
    | some e ↦ renamed name (some (not_synced e)) p
    | none ↦ renamed name none p
  ]

  -- In `download` of the file, from the file on.
  abbrev pub created_top : Text → Bytes → Bool → Option Text → Place → Place × Option Trouble
  created_top name body broken (some e) p = renamed name (some (no_file e)) p
  created_top name body broken none p =
      let q = write (put_top (partial_name name) [] p.now) p in
      copied_top name body broken (write (put_top (partial_name name) body q.now) q)

  -- `downloadTo`
  abbrev pub download_to : Text → Reply → Place → Place × Option Trouble
  download_to name (no_reply e) p = renamed name (some (unreachable e)) p
  download_to name (reply status body broken) p =
      if status == 200
      then created_top name body broken (w.create (partial_name name)) p
      else renamed name (some (bad_status status)) p

  -- `Install` of a model that is one file
  unfoldable pub install_file : Model → Place → Place × Option Trouble
  install_file m p = elim w.make_directory [
    | some e ↦ (p, some (no_directory e))
    | none ↦ download_to m.name (w.fetch m.url) p
  ]

  -- `Install`
  abbrev pub install : Model → Place → Place × Option Trouble
  install m p = if is_file m then install_file m p else install_folder w m p
