-- ===== src/Update/Pinned.antt =====
-- What stands behind an offer of the public releases.
use local_dictation.Prelude.{true, false, none, some, ◌≡◌, ◌⊎◌, inl}
use local_dictation.Text.{Text, codes, has_prefix}
use local_dictation.Update.Version.{is_newer}
use local_dictation.Update.Manifest.{Bytes, Found}
use local_dictation.Update.Github.{Asset, Release, GitHub, Api, repo_of, platform_of, check_repo}
use local_dictation.Update.Latest.{Answer, get, latest_url}
use local_dictation.Update.Assets.{Among, Listed, Installs}

-- What has been seen when a newer release is offered.
pub record Pinned (o : Api) (g : GitHub) (f : Found) : Type 0 where
  pub repo_right : check_repo (repo_of g) ≡ true
  pub raw : Bytes
  pub document : get o g (latest_url o g) ≡ inl raw
  pub release : Release
  pub parsed : o.unmarshal raw ≡ some release
  pub newer : is_newer f.available g.current ≡ true
  pub installer : Asset
  pub installs : Installs (platform_of o g) release.assets installer
  pub checksums : Asset
  pub among : Among checksums release.assets
  pub secure : has_prefix checksums.url (codes "https://") ≡ true
  pub sums : Bytes
  pub fetched : get o g checksums.url ≡ inl sums
  pub artifact_url : f.artifact.url ≡ installer.url
  pub listed : Listed o.text sums installer.name f.artifact.sha256

-- An answer without an error either offers nothing or offers a pinned release.
abbrev pub Vouched : Api → GitHub → Answer → Type 0
Vouched o g (f, some e) = Unit
Vouched o g (f, none) = (f.newer ≡ false) ⊎ Pinned o g f
