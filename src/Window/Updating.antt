-- ===== src/Window/Updating.antt =====
-- The Update button: `lookForUpdate`, `downloadAndInstall` and `installDownloaded` of
-- client/internal/ui/settings_tab.go, with `InstallCommand` and `RestartCommand` of
-- client/internal/update/install.go. `filepath.Ext` and `filepath.Base` are arguments; the text of the
-- restart script is left out.
use local_dictation.Prelude.{
  Bool, true, false, not, List, [], ◌∷◌, ◌++◌, Option, none, some, if◌then◌else◌, ◌⊎◌, inl, inr,
}
use local_dictation.Text.{Text, codes, is_empty, beq, trim_space, to_lower}
use local_dictation.Update.Manifest.{Artifact, Found}

-- A command and its arguments.
abbrev pub Command : Type 0
Command = Text × List Text

pub data NoCommand : Type 0 where
  wrong_file : Text → NoCommand
  unsupported : Text → NoCommand

-- `strings.EqualFold(s, t)` for a text `t` of ASCII without k and s
abbrev pub equal_ascii : Text → Text → Bool
equal_ascii s t = beq (to_lower s) t

-- `InstallCommand`
unfoldable pub install_command : (Text → Text) → Text → Text → Command ⊎ NoCommand
install_command extension goos path =
    if beq goos (codes "darwin")
    then (if not (equal_ascii (extension path) (codes ".pkg"))
        then inr (wrong_file path)
        else inl (codes "/usr/bin/open", path ∷ []))
    else if beq goos (codes "windows")
    then (if not (equal_ascii (extension path) (codes ".msi"))
        then inr (wrong_file path)
        else inl
            (codes "msiexec.exe", codes "/i" ∷ path ∷ codes "/passive" ∷ codes "/norestart" ∷ []))
    else inr (unsupported goos)

-- What the outside answers: a check, a download, the start of the installer, and the path of the
-- application, which is empty where it is not known.
pub record Answers : Type 0 where
  pub goos : Text
  pub extension : Text → Text
  pub checked : Found × Option Text
  pub fetched : Artifact → Text ⊎ Text
  pub launched : Command → Option Text
  pub application : Text

-- What the button has done so far.
pub data Did : Type 0 where
  fetching : Artifact → Did
  watching : Text → Did
  installing : Command → Did
  quitting : Did

pub data Status : Type 0 where
  asking : Status
  check_failed : Text → Status
  newest : Text → Status
  offering : Found → Status
  download_failed : Text → Status
  not_started : Text → Text → Status
  installing_version : Text → Status

pub record Button : Type 0 where
  pub enabled : Bool
  pub status : Status
  pub offer : Option Found
  pub log : List Did

abbrev pub did : Did → Button → Button
did d b = record b { log = d ∷ b.log }

abbrev pub says : Status → Bool → Button → Button
says s enabled b = record b { status = s; enabled = enabled }

-- In `Install`, the watcher, where the application's path is known.
abbrev pub watched : Text → Button → Button
watched path b = if is_empty path then b else did (watching path) b

-- In `installDownloaded`, after `Install`.
abbrev pub quit_after : Text → Text → Option Text → Button → Button
quit_after saved version none b = did quitting (says (installing_version version) false b)
quit_after saved version (some e) b = says (not_started version e) true b

module _ (a : Answers) where
  -- `Install`, and `installDownloaded`
  abbrev pub install_with : Text → Text → Command ⊎ NoCommand → Button → Button
  install_with saved version (inr e) b =
      quit_after saved version (some (codes "no installer command")) b
  install_with saved version (inl command) b =
      quit_after saved version (a.launched command)
        (did (installing command) (watched a.application b))

  abbrev pub install_downloaded : Text → Text → Button → Button
  install_downloaded saved version b =
      install_with saved version (install_command a.extension a.goos saved) b

  -- In `downloadAndInstall`, after the download.
  abbrev pub downloaded : Found → Text ⊎ Text → Button → Button
  downloaded f (inr e) b = says (download_failed e) true b
  downloaded f (inl saved) b = install_downloaded saved f.available b

  -- `downloadAndInstall`
  abbrev pub download_and_install : Found → Button → Button
  download_and_install f b = downloaded f (a.fetched f.artifact) (did (fetching f.artifact) b)

  -- In `lookForUpdate`, after the check.
  abbrev pub found_update : Bool → Found × Option Text → Button → Button
  found_update install (f, some e) b = says (check_failed e) true (record b { offer = some f })
  found_update install (f, none) b =
      let b1 = record b { offer = some f } in
      if not f.newer
      then says (newest f.current) true b1
      else if not install
      then says (offering f) true b1
      else download_and_install f b1

  -- `lookForUpdate`: `onUpdate` installs, `checkOnStart` does not
  unfoldable pub look_for_update : Bool → Button → Button
  look_for_update install b = found_update install a.checked (says asking false b)

-- `offerText`
abbrev pub offer_text : Found → Text
offer_text f =
    codes "Version "
    ++ f.available
    ++ codes " is available."
    ++ (if is_empty (trim_space f.notes) then [] else codes " " ++ trim_space f.notes)
    ++ (if is_empty f.page then [] else codes "\n" ++ f.page)
