-- ===== src/Update/Manifest.antt =====
-- `Checker` and `Verify` of client/internal/update/update.go. What the network, `encoding/json`,
-- `encoding/base64` and `crypto/ed25519` answer is the record `Outside`.
use local_dictation.Prelude.{
  ℕ, Bool, not, ◌==◌, List, [], ◌∷◌, Option, none, some, if◌then◌else◌, ◌⊎◌, inl, inr, length, take,
}
use local_dictation.Prelude.Int.{ℤ}
use local_dictation.Text.{Text, codes, is_empty, beq, has_prefix, trim_space}
use local_dictation.Update.Version.{is_newer}

abbrev pub Bytes : Type 0
Bytes = List ℕ

pub record Artifact : Type 0 where
  pub url : Text
  pub sha256 : Text
  pub size : ℤ

-- The map `Artifacts` is the list of its entries.
pub record Manifest : Type 0 where
  pub version : Text
  pub notes : Text
  pub published : Text
  pub artifacts : List (Text × Artifact)
  pub signature : Text

-- `Result`
pub record Found : Type 0 where
  pub current : Text
  pub available : Text
  pub newer : Bool
  pub notes : Text
  pub artifact : Artifact
  pub platform : Text
  pub page : Text

-- `Checker`
pub record Checker : Type 0 where
  pub manifest_url : Text
  pub public_key : Text
  pub current : Text

-- What a request answers: no response, or a status and a body that may break off.
pub data Response : Type 0 where
  no_response : Text → Response
  response : ℕ → Option Bytes → Response

pub record Outside : Type 0 where
  pub decode_base64 : Text → Option Bytes
  pub unmarshal : Bytes → Option Manifest
  pub marshal : Manifest → Option Bytes
  pub verify_ed25519 : Bytes → Bytes → Bytes → Bool
  pub get : Text → Response
  pub platform : Text

-- The errors of `Verify` and `Check`, by what they say.
pub data Refusal : Type 0 where
  not_configured not_https : Refusal
  unreachable : Text → Refusal
  bad_status : ℕ → Refusal
  broken_off : Refusal
  no_key key_malformed unparsable unsigned signature_malformed unencodable untrusted : Refusal
  no_build : Text → Refusal

-- The size of a key, `ed25519.PublicKeySize`.
abbrev pub key_size : ℕ
key_size = 32

-- The limit of `io.LimitReader` on a manifest.
abbrev pub manifest_limit : ℕ
manifest_limit = 1048576

module _ (o : Outside) where
  -- `SigningPayload`
  unfoldable pub signing_payload : Manifest → Option Bytes
  signing_payload m = o.marshal (record m { signature = [] })

  -- In `Verify`, from the decoded signature and the payload on.
  abbrev pub verified : Bytes → Manifest → Option Bytes → Option Bytes → Manifest ⊎ Refusal
  verified key m none payload = inr signature_malformed
  verified key m (some signature) none = inr unencodable
  verified key m (some signature) (some payload) =
      if o.verify_ed25519 key payload signature then inl m else inr untrusted

  -- In `Verify`, from the parsed manifest on.
  abbrev pub signed_by : Bytes → Option Manifest → Manifest ⊎ Refusal
  signed_by key none = inr unparsable
  signed_by key (some m) =
      if is_empty m.signature
      then inr unsigned
      else verified key m (o.decode_base64 m.signature) (signing_payload m)

  -- In `Verify`, from the decoded key on.
  abbrev pub with_key : Bytes → Option Bytes → Manifest ⊎ Refusal
  with_key raw none = inr key_malformed
  with_key raw (some key) =
      if length key == key_size then signed_by key (o.unmarshal raw) else inr key_malformed

  -- `Verify`
  unfoldable pub verify : Bytes → Text → Manifest ⊎ Refusal
  verify raw public_key =
      if is_empty (trim_space public_key)
      then inr no_key
      else with_key raw (o.decode_base64 (trim_space public_key))

  -- `manifest.Artifacts[platform]`
  unfoldable pub lookup : Text → List (Text × Artifact) → Option Artifact
  lookup platform [] = none
  lookup platform ((key, a) ∷ entries) =
      let rest = lookup platform entries in if beq key platform then some a else rest

  -- In `Check`, after the artifact has been looked up.
  abbrev pub found : Checker → Manifest → Option Artifact → Found ⊎ Refusal
  found c m none = inr (no_build o.platform)
  found c m (some a) = inl (record {
    current = c.current;
    available = m.version;
    newer = is_newer m.version c.current;
    notes = m.notes;
    artifact = a;
    platform = o.platform;
    page = [];
  })

  -- In `Check`, after `Verify`.
  abbrev pub offered : Checker → Manifest ⊎ Refusal → Found ⊎ Refusal
  offered c (inr e) = inr e
  offered c (inl m) = found c m (lookup o.platform m.artifacts)

  -- In `Check`, from the response on.
  abbrev pub answered : Checker → Response → Found ⊎ Refusal
  answered c (no_response e) = inr (unreachable e)
  answered c (response status none) = inr (if status == 200 then broken_off else bad_status status)
  answered c (response status (some body)) =
      if status == 200
      then offered c (verify (take manifest_limit body) c.public_key)
      else inr (bad_status status)

  -- `Checker.Check`
  unfoldable pub check : Checker → Found ⊎ Refusal
  check c =
      if is_empty (trim_space c.manifest_url)
      then inr not_configured
      else if not (has_prefix c.manifest_url (codes "https://"))
      then inr not_https
      else answered c (o.get c.manifest_url)

-- `Checker.Describe`
unfoldable pub describe : Checker → Text
describe c =
    let trimmed = trim_space c.manifest_url in
    if is_empty trimmed then codes "no update server" else trimmed

-- `Source`: the internal server or the public releases.
pub data Source : Type 0 where
  checker : Checker → Source
  github : Text → Text → Source

-- `SourceFor`
unfoldable pub source_for : Text → Text → Text → Text → Source
source_for manifest_url public_key repo current =
    if is_empty (trim_space manifest_url)
    then github repo current
    else checker
        (record { manifest_url = manifest_url; public_key = public_key; current = current })
