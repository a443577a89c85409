-- ===== src/Commands/Published.antt =====
-- What is signed is what clients accept.
use local_dictation.Prelude.{
  ℕ, Bool, true, false, ◌||◌, ◌==◌, [], ◌∷◌, ◌++◌, none, some, if◌then◌else◌, ◌⊎◌, inl, inr, ◌≡◌,
  refl, ap, ◌∙◌, arith, length,
}
use local_dictation.Text.{Text, is_empty, trim_space}
use local_dictation.Update.Manifest.{
  Bytes, Manifest, Outside, Refusal, key_size, signing_payload, verified, signed_by, with_key,
  verify,
}
use local_dictation.Commands.Sign.{
  Signing, check_manifest, private_key_size, signature_of, verified_again, written, encoded,
  with_payload, with_problems, with_manifest, with_document, with_private, with_key_file, sign,
}

-- What a run of `sign` finds, and what the packages that it calls do with a key and a manifest: base64
-- and JSON are read back, a key has its size, and a signature verifies under the public key.
pub record Works (o : Outside) (s : Signing) (key_path manifest_path : Text) (m : Manifest)
    (key : Bytes) : Type 0 where
  pub key_given : is_empty key_path ≡ false
  pub manifest_given : is_empty manifest_path ≡ false
  pub key_raw : Bytes
  pub key_file : s.read_file key_path ≡ inl key_raw
  pub key_decoded : o.decode_base64 (trim_space (s.text key_raw)) ≡ some key
  pub key_size_right : length key ≡ private_key_size
  pub raw : Bytes
  pub manifest_file : s.read_file manifest_path ≡ inl raw
  pub manifest_parsed : o.unmarshal raw ≡ some m
  pub payload : Bytes
  pub payload_encoded : o.marshal (record m { signature = [] }) ≡ some payload
  pub signature_filled : is_empty (signature_of o s key payload) ≡ false
  pub signature_decoded :
      o.decode_base64 (signature_of o s key payload) ≡ some (s.sign_ed25519 key payload)
  pub public_trimmed :
      trim_space (s.encode_base64 (s.public_of key)) ≡ s.encode_base64 (s.public_of key)
  pub public_filled : is_empty (s.encode_base64 (s.public_of key)) ≡ false
  pub public_decoded : o.decode_base64 (s.encode_base64 (s.public_of key)) ≡ some (s.public_of key)
  pub public_size : length (s.public_of key) ≡ key_size
  pub verifies : o.verify_ed25519 (s.public_of key) payload (s.sign_ed25519 key payload) ≡ true
  pub document : Bytes
  pub document_encoded :
      s.marshal_indent (record m { signature = signature_of o s key payload }) ≡ some document
  pub document_parsed :
      o.unmarshal (document ++ 10 ∷ [])
      ≡ some (record m { signature = signature_of o s key payload })
  pub document_written : s.write_file ≡ none

module _ (o : Outside) (s : Signing) (key_path manifest_path : Text) (m : Manifest) (key : Bytes)
    (w : Works o s key_path manifest_path m key) where
  abbrev pub signed_manifest : Manifest
  signed_manifest = record m { signature = signature_of o s key w.payload }

  if_true : {A : Type 0} (b : Bool) (x y : A) → b ≡ true → (if b then x else y) ≡ x
  if_true true x y h = refl
  if_true false x y h = absurd (ground (arith, h))

  if_false : {A : Type 0} (b : Bool) (x y : A) → b ≡ false → (if b then x else y) ≡ y
  if_false false x y h = refl
  if_false true x y h = absurd (ground (arith, h))

  eqb_true : (a b : ℕ) → a ≡ b → (a == b) ≡ true
  eqb_true a b h = ground (arith, h)

  signed_by-accepts : signed_by o (s.public_of key) (some signed_manifest) ≡ inl signed_manifest
  unfolding signing_payload
  signed_by-accepts =
      if_false (is_empty (signature_of o s key w.payload)) _ _ w.signature_filled
      ∙ ap (λ d. verified o (s.public_of key) signed_manifest d (signing_payload o signed_manifest))
          w.signature_decoded
      ∙ ap (verified o (s.public_of key) signed_manifest (some (s.sign_ed25519 key w.payload)))
          w.payload_encoded
      ∙ if_true _ _ _ w.verifies

  -- The client accepts the document with the public key.
  verify-accepts :
      verify o (w.document ++ 10 ∷ []) (s.encode_base64 (s.public_of key)) ≡ inl signed_manifest
  unfolding verify
  verify-accepts =
      ap
        (λ k.
          if◌then◌else◌ {A = Manifest ⊎ Refusal} (is_empty k) (inr Refusal.no_key)
            (with_key o (w.document ++ 10 ∷ []) (o.decode_base64 k)))
        w.public_trimmed
      ∙ if_false _ _ _ w.public_filled
      ∙ ap (with_key o (w.document ++ 10 ∷ [])) w.public_decoded
      ∙ if_true _ _ _ (eqb_true _ _ w.public_size)
      ∙ ap (signed_by o (s.public_of key)) w.document_parsed
      ∙ signed_by-accepts

  written-accepted :
      written o s key (w.document ++ 10 ∷ []) s.write_file ≡ (some (w.document ++ 10 ∷ []), none)
  written-accepted =
      ap (written o s key (w.document ++ 10 ∷ [])) w.document_written
      ∙ ap (verified_again o s (w.document ++ 10 ∷ [])) verify-accepts

  with_manifest-accepted :
      check_manifest m ≡ [] → with_manifest o s key (some m) ≡ (some (w.document ++ 10 ∷ []), none)
  unfolding signing_payload
  with_manifest-accepted right =
      ap (with_problems o s key m) right
      ∙ ap (with_payload o s key m) w.payload_encoded
      ∙ ap (encoded o s key) w.document_encoded
      ∙ written-accepted

  -- `sign` of a manifest in which `checkManifest` finds nothing succeeds, and a client that has the
  -- public key accepts the document that it wrote as that manifest with the signature; where the
  -- packages for base64, JSON and ed25519 work on the key and the manifest, and the files can be read
  -- and written.
  pub sign-accepted :
      check_manifest m ≡ []
      → (sign o s key_path manifest_path ≡ (some (w.document ++ 10 ∷ []), none))
        × (verify o (w.document ++ 10 ∷ []) (s.encode_base64 (s.public_of key))
            ≡ inl signed_manifest)
  unfolding sign
  sign-accepted right = (
    if_false (is_empty key_path || is_empty manifest_path) _ _
          (ground (arith, w.key_given, w.manifest_given))
        ∙ ap (with_key_file o s manifest_path) w.key_file
        ∙ ap (with_private o s manifest_path) w.key_decoded
        ∙ if_true _ _ _ (eqb_true _ _ w.key_size_right)
        ∙ ap (with_document o s key) w.manifest_file
        ∙ ap (with_manifest o s key) w.manifest_parsed
        ∙ with_manifest-accepted right,
    verify-accepts,
  )
