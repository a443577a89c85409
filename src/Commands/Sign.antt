-- ===== src/Commands/Sign.antt =====
-- client/cmd/sign-manifest/main.go. The flags are parsed, and what the files, `encoding/json`,
-- `encoding/base64` and `crypto/ed25519` answer is the records `Outside` and `Signing`; what is printed
-- is left out.
use local_dictation.Prelude.{
  ℕ, Bool, true, false, not, ◌||◌, ◌==◌, List, [], ◌∷◌, ◌++◌, Option, none, some, if◌then◌else◌,
  ◌⊎◌, inl, inr, length,
}
use local_dictation.Prelude.Int.{pos, leb_ℤ}
use local_dictation.Text.{Text, codes, is_empty, has_prefix, trim_space}
use local_dictation.Update.Manifest.{
  Bytes, Artifact, Manifest, Outside, Refusal, signing_payload, verify,
}

-- What only the signer uses.
pub record Signing : Type 0 where
  pub encode_base64 : Bytes → Text
  pub sign_ed25519 : Bytes → Bytes → Bytes
  pub public_of : Bytes → Bytes
  pub marshal_indent : Manifest → Option Bytes
  pub text : Bytes → Text
  pub read_file : Text → Bytes ⊎ Text
  pub write_file : Option Text

-- What `checkManifest` says.
pub data Unpublishable : Type 0 where
  no_version no_artifacts : Unpublishable
  not_https wrong_hash_length no_size : Text → Unpublishable

pub data SignError : Type 0 where
  missing_flags : SignError
  key_unreadable manifest_unreadable not_written : Text → SignError
  not_a_key unparsable unencodable : SignError
  unpublishable : List Unpublishable → SignError
  does_not_verify : Refusal → SignError

-- In `checkManifest`, a problem where a test says so.
abbrev pub problem : Bool → Unpublishable → List Unpublishable
problem true p = p ∷ []
problem false p = []

-- In `checkManifest`, one artifact.
abbrev pub artifact_problems : Text → Artifact → List Unpublishable
artifact_problems platform a =
    problem (not (has_prefix a.url (codes "https://"))) (not_https platform)
    ++ (problem (not (length a.sha256 == 64)) (wrong_hash_length platform)
        ++ problem (leb_ℤ a.size (pos 0)) (no_size platform))

-- In `checkManifest`, the loop.
unfoldable pub artifacts_problems : List (Text × Artifact) → List Unpublishable
artifacts_problems [] = []
artifacts_problems ((platform, a) ∷ rest) = artifact_problems platform a ++ artifacts_problems rest

-- In `checkManifest`, the test for artifacts.
abbrev pub is_none : List (Text × Artifact) → Bool
is_none [] = true
is_none (a ∷ rest) = false

-- `checkManifest`
unfoldable pub check_manifest : Manifest → List Unpublishable
check_manifest m =
    problem (is_empty (trim_space m.version)) no_version
    ++ (problem (is_none m.artifacts) no_artifacts ++ artifacts_problems m.artifacts)

-- The size of a private key, `ed25519.PrivateKeySize`.
abbrev pub private_key_size : ℕ
private_key_size = 64

-- What `sign` leaves: the document that it wrote, where it did, and how it ends.
abbrev pub Signed : Type 0
Signed = Option Bytes × Option SignError

abbrev pub refused : SignError → Signed
refused e = (none, some e)

module _ (o : Outside) (s : Signing) where
  -- In `sign`, what was written is verified.
  abbrev pub verified_again : Bytes → Manifest ⊎ Refusal → Signed
  verified_again document (inl m) = (some document, none)
  verified_again document (inr e) = (some document, some (does_not_verify e))

  -- In `sign`, the file is written.
  abbrev pub written : Bytes → Bytes → Option Text → Signed
  written key document (some e) = refused (not_written e)
  written key document none =
      verified_again document (verify o document (s.encode_base64 (s.public_of key)))

  -- In `sign`, the signed manifest.
  abbrev pub encoded : Bytes → Option Bytes → Signed
  encoded key none = refused unencodable
  encoded key (some signed) = written key (signed ++ 10 ∷ []) s.write_file

  -- In `sign`, the signature.
  abbrev pub signature_of : Bytes → Bytes → Text
  signature_of key payload = s.encode_base64 (s.sign_ed25519 key payload)

  -- In `sign`, from the payload on.
  abbrev pub with_payload : Bytes → Manifest → Option Bytes → Signed
  with_payload key m none = refused unencodable
  with_payload key m (some payload) =
      encoded key (s.marshal_indent (record m { signature = signature_of key payload }))

  -- In `sign`, after `checkManifest`.
  abbrev pub with_problems : Bytes → Manifest → List Unpublishable → Signed
  with_problems key m (p ∷ ps) = refused (unpublishable (p ∷ ps))
  with_problems key m [] = with_payload key m (signing_payload o m)

  -- In `sign`, the parsed manifest.
  abbrev pub with_manifest : Bytes → Option Manifest → Signed
  with_manifest key none = refused unparsable
  with_manifest key (some m) = with_problems key m (check_manifest m)

  -- In `sign`, the manifest's file.
  abbrev pub with_document : Bytes → Bytes ⊎ Text → Signed
  with_document key (inr e) = refused (manifest_unreadable e)
  with_document key (inl raw) = with_manifest key (o.unmarshal raw)

  -- In `sign`, the decoded key.
  abbrev pub with_private : Text → Option Bytes → Signed
  with_private manifest_path none = refused not_a_key
  with_private manifest_path (some key) =
      if length key == private_key_size
      then with_document key (s.read_file manifest_path)
      else refused not_a_key

  -- In `sign`, the key's file.
  abbrev pub with_key_file : Text → Bytes ⊎ Text → Signed
  with_key_file manifest_path (inr e) = refused (key_unreadable e)
  with_key_file manifest_path (inl raw) =
      with_private manifest_path (o.decode_base64 (trim_space (s.text raw)))

  -- `sign`
  unfoldable pub sign : Text → Text → Signed
  sign key_path manifest_path =
      if is_empty key_path || is_empty manifest_path
      then refused missing_flags
      else with_key_file manifest_path (s.read_file key_path)

  -- In `verify`, a key that may be the path of a file.
  abbrev pub key_or_file : Text → Bytes ⊎ Text → Text
  key_or_file key (inl contents) = trim_space (s.text contents)
  key_or_file key (inr e) = key

  pub data VerifyError : Type 0 where
    no_flags : VerifyError
    unreadable : Text → VerifyError
    refused_by : Refusal → VerifyError

  -- In `verify`, after `update.Verify`.
  abbrev pub verdict : Manifest ⊎ Refusal → Manifest ⊎ VerifyError
  verdict (inl m) = inl m
  verdict (inr e) = inr (refused_by e)

  -- In `verify`, the manifest's file.
  abbrev pub of_document : Text → Bytes ⊎ Text → Manifest ⊎ VerifyError
  of_document key (inr e) = inr (unreadable e)
  of_document key (inl raw) = verdict (verify o raw (key_or_file key (s.read_file key)))

  -- `verify`
  unfoldable pub verify_command : Text → Text → Manifest ⊎ VerifyError
  verify_command public manifest_path =
      if is_empty public || is_empty manifest_path
      then inr no_flags
      else of_document public (s.read_file manifest_path)
