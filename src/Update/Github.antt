-- ===== src/Update/Github.antt =====
-- The releases that client/internal/update/github.go reads, and what it reads in them. The answers of
-- the network and of `encoding/json`, and the decoding of UTF-8, are the record `Api`.
use local_dictation.Prelude.{
  ℕ, ◌-◌, Bool, true, false, not, ◌&&◌, ◌||◌, ◌==◌, List, [], ◌∷◌, ◌++◌, map, Option, none, some,
  if◌then◌else◌, leb, length, take, drop,
}
use local_dictation.Prelude.Int.{ℤ}
use local_dictation.Text.{Text, codes, is_empty, beq, trim_space, contains, cut, to_lower}
use local_dictation.Settings.Config.{join}
use local_dictation.Update.Manifest.{Bytes}

-- `releaseAsset`
pub record Asset : Type 0 where
  pub name : Text
  pub url : Text
  pub size : ℤ

-- The release document.
pub record Release : Type 0 where
  pub tag : Text
  pub page : Text
  pub assets : List Asset

-- `GitHub`, with its two fields for tests; an empty text is an unset one.
pub record GitHub : Type 0 where
  pub repo : Text
  pub current : Text
  pub api : Text
  pub goos : Text

-- What a request answers: no response, or the status, the header X-RateLimit-Remaining, the body, and
-- whether the body broke off.
pub data Reply : Type 0 where
  no_reply : Text → Reply
  reply : ℕ → Text → Bytes → Bool → Reply

pub record Api : Type 0 where
  pub get : Text → Reply
  pub unmarshal : Bytes → Option Release
  pub text : Bytes → Text
  pub goos : Text
  pub platform_key : Text

-- The errors, by what they say.
pub data Problem : Type 0 where
  malformed_repo : Text → Problem
  not_https : Text → Problem
  unreachable : Text → Problem
  no_releases : Text → Problem
  rate_limited broken_off unparsable : Problem
  bad_status : ℕ → Problem
  no_version : Text → Problem
  no_installer : Text → Text → Problem
  no_sums : Text → Text → Text → Problem
  unlisted : Text → Text → Problem

-- `DefaultRepo`
abbrev pub default_repo : Text
default_repo = codes "dennis2lee/local-dictation"

-- `repo`
unfoldable pub repo_of : GitHub → Text
repo_of g = if is_empty (trim_space g.repo) then default_repo else trim_space g.repo

-- `Describe`
unfoldable pub describe_github : GitHub → Text
describe_github g = codes "github.com/" ++ repo_of g

-- `strings.HasSuffix(s, suffix)`
abbrev pub has_suffix : Text → Text → Bool
has_suffix s suffix =
    leb (length suffix) (length s) && beq (drop (length s - length suffix) s) suffix

-- `platform`
abbrev pub platform_of : Api → GitHub → Text
platform_of o g = if is_empty g.goos then o.goos else g.goos

-- `base`
abbrev pub base : GitHub → Text
base g =
    if is_empty g.api
    then codes "https://api.github.com"
    else if has_suffix g.api (codes "/")
    then take (length g.api - 1) g.api
    else g.api

-- In `CheckRepo`, the test of a letter.
abbrev pub is_repo_letter : ℕ → Bool
is_repo_letter c =
    leb b'a' c && leb c b'z'
    || leb b'A' c && leb c b'Z'
    || leb b'0' c && leb c b'9'
    || c == b'-'
    || c == b'_'
    || c == b'.'

-- In `CheckRepo`, the loop over a segment.
unfoldable pub are_repo_letters : Text → Bool
are_repo_letters [] = true
are_repo_letters (c ∷ s) = is_repo_letter c && are_repo_letters s

-- In `CheckRepo`, from the cut on.
abbrev pub segments_right : Option (Text × Text) → Bool
segments_right none = false
segments_right (some (owner, name)) =
    not (is_empty owner || is_empty name || contains name b'/')
    && (are_repo_letters owner && are_repo_letters name)

-- `CheckRepo`, true where there is no error
unfoldable pub check_repo : Text → Bool
check_repo repo = segments_right (cut repo b'/')

-- `assetNamed`
unfoldable pub asset_named : Text → List Asset → Option Asset
asset_named name [] = none
asset_named name (a ∷ rest) =
    let found = asset_named name rest in
    if beq a.name name && not (is_empty a.url) then some a else found

-- In `installerFor`, the loop over the assets.
unfoldable pub asset_ending : Text → List Asset → Option Asset
asset_ending suffix [] = none
asset_ending suffix (a ∷ rest) =
    let found = asset_ending suffix rest in
    if has_suffix (to_lower a.name) suffix && not (is_empty a.url) then some a else found

-- In `installerFor`, the suffix of a platform.
abbrev pub suffix_of : Text → Option Text
suffix_of goos =
    if beq goos (codes "darwin")
    then some (codes ".pkg")
    else if beq goos (codes "windows")
    then some (codes ".msi")
    else none

-- `installerFor`
unfoldable pub installer_for : Text → List Asset → Option Asset
installer_for goos assets = elim (suffix_of goos) [
  | none ↦ none
  | some suffix ↦ asset_ending suffix assets
]

-- `assetList`
unfoldable pub asset_list : List Asset → Text
asset_list [] = codes "no files"
asset_list (a ∷ rest) = join (codes ", ") (map (λ b. b.name) (a ∷ rest))
