-- ===== src/Tests/Github.antt =====
-- A release with an installer and its checksums.
use local_dictation.Prelude.{true, false, [], ◌∷◌, some, ◌≡◌, ◌↔◌, refl, if◌then◌else◌}
use local_dictation.Prelude.Int.{pos}
use local_dictation.Text.{codes, beq, is_empty, trim_space, trim_left, trim_right, is_space}
use local_dictation.Update.Manifest.{Bytes}
use local_dictation.Update.Sums.{expected_hash, scan_lines, fields, without_return}
use local_dictation.Update.Github.{Release, GitHub, Api, reply, check_repo}
use local_dictation.Update.Repository.{OwnerAndName, check_repo_iff}

abbrev sums : Bytes
sums = codes "ab12  LocalDictation.msi\ncd34 *LocalDictation.pkg\r\n"

abbrev release : Release
release = record {
  tag = codes "v1.3.0";
  page = codes "https://github.com/x/y/releases/1.3.0";
  assets =
      record { name = codes "LocalDictation.pkg"; url = codes "https://dl/pkg"; size = pos 3 }
      ∷ record { name = codes "SHA256SUMS"; url = codes "https://dl/sums"; size = pos 9 }
      ∷ [];
}

abbrev api : Api
api = record {
  get = λ url.
      if beq url (codes "https://dl/sums")
      then reply 200 (codes "59") sums false
      else reply 200 (codes "59") (codes "{}") false;
  unmarshal = λ raw. some release;
  text = λ raw. raw;
  goos = codes "darwin";
  platform_key = codes "darwin/arm64";
}

abbrev public : GitHub
public = record { repo = []; current = codes "1.2.9"; api = []; goos = [] }

hashed : expected_hash (λ raw. raw) sums (codes "LocalDictation.pkg") ≡ codes "cd34"
unfolding expected_hash scan_lines fields without_return local_dictation.Text.split is_space
    local_dictation.Text.trim_prefix local_dictation.Text.has_prefix beq
hashed = refl

check_repo_iff_example :
    (check_repo (codes "dennis2lee/local-dictation") ≡ true)
    ↔ OwnerAndName (codes "dennis2lee/local-dictation")
check_repo_iff_example = check_repo_iff (codes "dennis2lee/local-dictation")
