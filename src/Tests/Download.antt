-- ===== src/Tests/Download.antt =====
-- A signed manifest and a download, with a toy encoding, signature and hash.
use local_dictation.Prelude.{
  true, false, [], ◌∷◌, ◌++◌, none, some, ◌≡◌, refl, inl, arith, if◌then◌else◌,
}
use local_dictation.Prelude.Int.{pos}
use local_dictation.Text.Decimal.{atoi, digits_value}
use local_dictation.Update.Version.{
  is_newer, compare_versions, compare_parts, version_parts, numbers, before_suffix,
}
use local_dictation.Text.{
  trim_left, trim_right, is_space, trim_prefix, split, codes, beq, has_prefix, trim_space, is_empty,
}
use local_dictation.Update.Manifest.{
  Bytes, Artifact, Manifest, Checker, Outside, response, signing_payload, lookup, verify, check,
  Found,
}
use local_dictation.Update.Trust.{Trusted, Backed, verify-Trusted, check-Backed}
use local_dictation.Update.Download.{Disk, World, reply, download}
use local_dictation.Update.Kept.{Ends, download-Ends}

abbrev build : Artifact
build = record { url = codes "https://updates.example/ld.pkg"; sha256 = codes "AB"; size = pos 3 }

abbrev release : Manifest
release = record {
  version = codes "1.3.0";
  notes = [];
  published = [];
  artifacts = (codes "darwin/arm64", build) ∷ [];
  signature = codes "sig";
}

abbrev zeros : Bytes
zeros = 0 ∷ 0 ∷ 0 ∷ 0 ∷ 0 ∷ 0 ∷ 0 ∷ 0 ∷ 0 ∷ 0 ∷ 0 ∷ 0 ∷ 0 ∷ 0 ∷ 0 ∷ 0 ∷ []

-- Every document is the release, every base64 text a key of 32 bytes, every signature valid.
abbrev outside : Outside
outside = record {
  decode_base64 = λ t. some (zeros ++ zeros);
  unmarshal = λ raw. some release;
  marshal = λ m. some m.version;
  verify_ed25519 = λ key payload signature. true;
  get = λ url. response 200 (some (codes "{}"));
  platform = codes "darwin/arm64";
}

abbrev internal : Checker
internal = record {
  manifest_url = codes "https://updates.example/manifest.json";
  public_key = codes "key";
  current = codes "1.2.9";
}

verified : verify outside (codes "{}") (codes "key") ≡ inl release
unfolding verify trim_space trim_left trim_right is_space is_empty signing_payload
verified = refl

verify-Trusted_example : Trusted outside (codes "{}") (codes "key") release
verify-Trusted_example = verify-Trusted outside (codes "{}") (codes "key") release verified

abbrev offer : Found
offer = record {
  current = codes "1.2.9";
  available = codes "1.3.0";
  newer = true;
  notes = [];
  artifact = build;
  platform = codes "darwin/arm64";
  page = [];
}

checked : check outside internal ≡ inl offer
unfolding check verify trim_space trim_left trim_right is_space is_empty signing_payload has_prefix
    lookup beq is_newer compare_versions compare_parts version_parts numbers before_suffix
    trim_prefix split atoi digits_value
checked = refl

check-Backed_example : Backed outside internal offer
check-Backed_example = check-Backed outside internal offer checked

abbrev disk : Disk
disk path = if beq path (codes "notes.txt") then some (codes "mine") else none

abbrev good : World
good = record {
  get = λ url. reply 200 (1 ∷ 2 ∷ 3 ∷ 4 ∷ []) false;
  make_directory = none;
  create_temporary = inl (codes ".update-1");
  target = codes "ld.pkg";
  hash = λ bytes. codes "ab";
  rename = none;
}

download-Ends_example : Ends good build disk (codes ".update-1") (download good build disk)
download-Ends_example =
    download-Ends good build disk (codes ".update-1") (λ e. ground (arith, e)) (inl refl)
