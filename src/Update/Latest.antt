-- ===== src/Update/Latest.antt =====
-- `GitHub.get` and `GitHub.Check` of client/internal/update/github.go.
use local_dictation.Prelude.{
  ℕ, ◌^◌, false, not, ◌&&◌, ◌||◌, ◌==◌, [], ◌++◌, Option, none, some, if◌then◌else◌, ltb, length,
  take, ◌⊎◌, inl, inr,
}
use local_dictation.Prelude.Int.{pos}
use local_dictation.Text.{Text, codes, is_empty, beq, has_prefix, trim_prefix, trim_space}
use local_dictation.Update.Version.{is_newer}
use local_dictation.Update.Manifest.{Bytes, Artifact, Found}
use local_dictation.Update.Sums.{expected_hash}
use local_dictation.Update.Github.{
  Asset, Release, GitHub, Reply, no_reply, reply, Api, Problem, malformed_repo, not_https,
  unreachable, no_releases, rate_limited, broken_off, unparsable, bad_status, no_version,
  no_installer, no_sums, unlisted, repo_of, platform_of, base, check_repo, asset_named,
  installer_for, asset_list,
}

-- The limit of `io.LimitReader`.
abbrev pub body_limit : ℕ
body_limit = 2 ^ 20

-- What `Check` returns: a result, perhaps with an error beside it.
abbrev pub Answer : Type 0
Answer = Found × Option Problem

-- The zero values.
abbrev pub no_artifact : Artifact
no_artifact = record { url = []; sha256 = []; size = pos 0 }

abbrev pub nothing : Found
nothing = record {
  current = [];
  available = [];
  newer = false;
  notes = [];
  artifact = no_artifact;
  platform = [];
  page = [];
}

module _ (o : Api) (g : GitHub) where
  -- In `get`, from the response on.
  abbrev pub received : Reply → Bytes ⊎ Problem
  received (no_reply e) = inr (unreachable e)
  received (reply status remaining body broken) =
      if status == 200
      then (if broken && ltb (length body) body_limit
          then inr broken_off
          else inl (take body_limit body))
      else if status == 404
      then inr (no_releases (repo_of g))
      else if (status == 403 || status == 429) && beq remaining (codes "0")
      then inr rate_limited
      else inr (bad_status status)

  -- `get`
  unfoldable pub get : Text → Bytes ⊎ Problem
  get url =
      if not (has_prefix url (codes "https://")) then inr (not_https url) else received (o.get url)

  -- In `Check`, after the checksum has been looked for.
  abbrev pub pinned : Found → Asset → Text → Answer
  pinned f installer digest =
      if is_empty digest then (f, some (unlisted f.available installer.name)) else (
        record f {
          artifact = record { url = installer.url; sha256 = digest; size = installer.size };
        },
        none,
      )

  -- In `Check`, after the checksums have been fetched.
  abbrev pub published : Found → Asset → Bytes ⊎ Problem → Answer
  published f installer (inr e) = (f, some e)
  published f installer (inl sums) = pinned f installer (expected_hash o.text sums installer.name)

  -- In `Check`, after the checksums have been looked for among the assets.
  abbrev pub summed : Found → Asset → Option Asset → Answer
  summed f installer none = (f, some (no_sums f.available installer.name f.page))
  summed f installer (some sums) = published f installer (get sums.url)

  -- In `Check`, after the installer has been looked for among the assets.
  abbrev pub installable : Found → Release → Option Asset → Answer
  installable f r none = (f, some (no_installer f.available (asset_list r.assets)))
  installable f r (some installer) = summed f installer (asset_named (codes "SHA256SUMS") r.assets)

  -- In `Check`, the version of a release.
  abbrev pub version_of : Release → Text
  version_of r = trim_prefix (trim_space r.tag) (codes "v")

  -- In `Check`, the result before the artifact is known.
  abbrev pub result_of : Release → Found
  result_of r = record {
    current = g.current;
    available = version_of r;
    newer = is_newer (version_of r) g.current;
    notes = [];
    artifact = no_artifact;
    platform = o.platform_key;
    page = r.page;
  }

  -- In `Check`, from the parsed release on.
  abbrev pub released : Option Release → Answer
  released none = (nothing, some unparsable)
  released (some r) =
      if is_empty (version_of r)
      then (nothing, some (no_version (repo_of g)))
      else if not (is_newer (version_of r) g.current)
      then (result_of r, none)
      else installable (result_of r) r (installer_for (platform_of o g) r.assets)

  -- In `Check`, from the release document on.
  abbrev pub documented : Bytes ⊎ Problem → Answer
  documented (inr e) = (nothing, some e)
  documented (inl raw) = released (o.unmarshal raw)

  -- In `Check`, the address of the latest release.
  abbrev pub latest_url : Text
  latest_url = base g ++ codes "/repos/" ++ repo_of g ++ codes "/releases/latest"

  -- `GitHub.Check`
  unfoldable pub check_github : Answer
  check_github =
      if not (check_repo (repo_of g))
      then (nothing, some (malformed_repo (repo_of g)))
      else documented (get latest_url)
