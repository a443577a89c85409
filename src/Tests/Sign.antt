-- ===== src/Tests/Sign.antt =====
-- A manifest that is signed, with a toy encoding and signature.
use local_dictation.Prelude.{[], ◌∷◌, ◌++◌, none, some, ◌≡◌, refl, inl, if◌then◌else◌}
use local_dictation.Prelude.Int.{pos}
use local_dictation.Text.{
  Text, codes, is_empty, beq, has_prefix, trim_space, trim_left, trim_right, is_space,
}
use local_dictation.Update.Manifest.{Bytes, Manifest, Outside, no_response, verify}
use local_dictation.Commands.Sign.{Signing, check_manifest, artifacts_problems, sign}
use local_dictation.Commands.Published.{Works, sign-accepted, signed_manifest}

abbrev eight : Bytes
eight = 1 ∷ 2 ∷ 3 ∷ 4 ∷ 5 ∷ 6 ∷ 7 ∷ 8 ∷ []

abbrev public_key : Bytes
public_key = eight ++ eight ++ eight ++ eight

abbrev private_key : Bytes
private_key = public_key ++ public_key

abbrev hash : Text
hash = codes "e3b0c44298fc1c149afbf4c8996fb92427ae41e4649b934ca495991b7852b855"

abbrev unsigned : Manifest
unsigned = record {
  version = codes "1.3.0";
  notes = [];
  published = [];
  artifacts =
      (codes "darwin/arm64", record { url = codes "https://u/ld.pkg"; sha256 = hash; size = pos 3 })
      ∷ [];
  signature = [];
}

-- A document that starts with `s` is the signed manifest; the text `private` is the private key, `public`
-- the public one and `sig` the signature.
abbrev outside : Outside
outside = record {
  decode_base64 = λ t.
      if beq t (codes "private")
      then some private_key
      else if beq t (codes "public")
      then some public_key
      else some (codes "signature");
  unmarshal = λ raw.
      if beq raw (codes "s\n")
      then some (record unsigned { signature = codes "sig" })
      else some unsigned;
  marshal = λ m. some m.version;
  verify_ed25519 = λ key payload signature. beq signature (codes "signature");
  get = λ url. no_response [];
  platform = codes "darwin/arm64";
}

abbrev signing : Signing
signing = record {
  encode_base64 = λ b. if beq b public_key then codes "public" else codes "sig";
  sign_ed25519 = λ key payload. codes "signature";
  public_of = λ key. public_key;
  marshal_indent = λ m. some (codes "s");
  text = λ raw. raw;
  read_file = λ path. if beq path (codes "key") then inl (codes "private\n") else inl (codes "{}");
  write_file = none;
}

works : Works outside signing (codes "key") (codes "manifest.json") unsigned private_key
unfolding is_empty beq trim_space trim_left trim_right is_space
works = record {
  key_given = refl;
  manifest_given = refl;
  key_raw = codes "private\n";
  key_file = refl;
  key_decoded = refl;
  key_size_right = refl;
  raw = codes "{}";
  manifest_file = refl;
  manifest_parsed = refl;
  payload = codes "1.3.0";
  payload_encoded = refl;
  signature_filled = refl;
  signature_decoded = refl;
  public_trimmed = refl;
  public_filled = refl;
  public_decoded = refl;
  public_size = refl;
  verifies = refl;
  document = codes "s";
  document_encoded = refl;
  document_parsed = refl;
  document_written = refl;
}

publishable : check_manifest unsigned ≡ []
unfolding check_manifest artifacts_problems is_empty has_prefix trim_space trim_left trim_right
    is_space
publishable = refl

sign-accepted_example :
    (sign outside signing (codes "key") (codes "manifest.json")
      ≡ (some (works.document ++ 10 ∷ []), none))
    × (verify outside (works.document ++ 10 ∷ []) (codes "public")
        ≡ inl (
            signed_manifest outside signing
              (codes "key")
              (codes "manifest.json")
              unsigned
              private_key
              works))
unfolding beq
sign-accepted_example =
    sign-accepted outside signing (codes "key") (codes "manifest.json") unsigned private_key works
      publishable
