-- ===== src/Tests/Saving.antt =====
-- The settings are saved over older ones, and the rename fails.
use local_dictation.Prelude.{[], ◌∷◌, ◌++◌, none, some, if◌then◌else◌, ◌≡◌, ◌≢◌, refl, inl, arith}
use local_dictation.Text.{Text, codes, beq}
use local_dictation.Settings.Config.{default}
use local_dictation.Settings.Saving.{Disk, Saver, save_to}
use local_dictation.Settings.Saving.Whole.{Ends, at_first, save_to-Ends}

abbrev path : Text
path = codes "settings.json"

abbrev name : Text
name = codes ".settings-1.json"

abbrev before : Disk
before q = if beq q path then some (codes "{}") else none

abbrev saver : Saver
saver = record {
  make_directory = none;
  encode = λ c. inl (c.mode);
  create_temporary = inl name;
  write_failed = none;
  sync = none;
  close = none;
  chmod = none;
  rename = some (codes "busy");
  remove_failed = none;
}

apart : path ≢ name
apart h = ground (arith, h)

new : before name ≡ none
unfolding beq
new = refl

save_to-Ends_example :
    Ends path name before
      (codes "local" ++ 10 ∷ [])
      none
      (save_to saver path (default []) (at_first before))
save_to-Ends_example =
    save_to-Ends saver path name before (codes "local") (default []) apart new refl refl
