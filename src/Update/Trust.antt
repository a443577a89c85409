-- ===== src/Update/Trust.antt =====
-- What a check that offers an update has seen.
use mathlib.Core.Path.{subst}
use local_dictation.Prelude.{
  Bool, true, false, not, [], Option, none, some, if◌then◌else◌, ◌==◌, ==_iff, ◌≡◌, ◌≢◌, ◌⊎◌, refl,
  ap, ◌∙◌, inl, inr, arith, length, take,
}
use local_dictation.Text.{Text, codes, is_empty, has_prefix, trim_space}
use local_dictation.Text.Laws.{is_empty_iff}
use local_dictation.Update.Version.{is_newer}
use local_dictation.Update.Manifest.{
  Bytes, Manifest, Artifact, Found, Checker, Response, no_response, response, Outside, Refusal,
  key_size, manifest_limit, signing_payload, verified, signed_by, with_key, verify, lookup, found,
  offered, answered, check,
}

-- The manifest was parsed from the document, and the configured key verifies its signature over the
-- manifest without the signature.
pub record Trusted (o : Outside) (raw : Bytes) (public_key : Text) (m : Manifest) : Type 0 where
  pub key : Bytes
  pub decoded : o.decode_base64 (trim_space public_key) ≡ some key
  pub sized : length key ≡ key_size
  pub parsed : o.unmarshal raw ≡ some m
  pub signature : Bytes
  pub signed : o.decode_base64 m.signature ≡ some signature
  pub payload : Bytes
  pub encoded : o.marshal (record m { signature = [] }) ≡ some payload
  pub valid : o.verify_ed25519 key payload signature ≡ true

module _ (o : Outside) where
  -- An `if` that gives a manifest.
  taken :
      {A : Type 0} (b : Bool) (x : A ⊎ Refusal) (e : Refusal) (m : A)
      → (if b then x else inr e) ≡ inl m
      → (b ≡ true) × (x ≡ inl m)
  taken true x e m h = (refl, h)
  taken false x e m h = absurd (ground (arith, h))

  passed_over :
      {A : Type 0} (b : Bool) (x : A ⊎ Refusal) (e : Refusal) (m : A)
      → (if b then inr e else x) ≡ inl m
      → (b ≡ false) × (x ≡ inl m)
  passed_over false x e m h = (refl, h)
  passed_over true x e m h = absurd (ground (arith, h))

  same_manifest : (m n : Manifest) → ◌≡◌ {A = Manifest ⊎ Refusal} (inl m) (inl n) → m ≡ n
  same_manifest m n h = ap (λ (x : Manifest ⊎ Refusal). elim x [ inl k ↦ k | inr e ↦ m ]) h

  verified-valid :
      (key : Bytes) (m n : Manifest) (s p : Option Bytes)
      → verified o key m s p ≡ inl n
      → (signature : Bytes) × (payload : Bytes) × (s ≡ some signature)
        × (p ≡ some payload)
        × (o.verify_ed25519 key payload signature ≡ true)
        × (m ≡ n)
  verified-valid key m n none p h = absurd (ground (arith, h))
  verified-valid key m n (some s) none h = absurd (ground (arith, h))
  verified-valid key m n (some s) (some p) h =
      let (valid, e) = taken (o.verify_ed25519 key p s) (inl m) _ n h in
      (s, p, refl, refl, valid, same_manifest m n e)

  signed-Trusted :
      (raw : Bytes) (public_key : Text) (key : Bytes) (parsed : Option Manifest) (m : Manifest)
      → o.decode_base64 (trim_space public_key) ≡ some key
      → length key ≡ key_size
      → o.unmarshal raw ≡ parsed
      → signed_by o key parsed ≡ inl m
      → Trusted o raw public_key m
  unfolding signing_payload
  signed-Trusted raw public_key key none m decoded sized parsed h = absurd (ground (arith, h))
  signed-Trusted raw public_key key (some n) m decoded sized parsed h =
      let (_, h1) = passed_over (is_empty n.signature) _ _ m h in
      let (signature, payload, signed, encoded, valid, same) = verified-valid key n m _ _ h1 in
      subst (Trusted o raw public_key) same (record {
        key = key;
        decoded = decoded;
        sized = sized;
        parsed = parsed;
        signature = signature;
        signed = signed;
        payload = payload;
        encoded = encoded;
        valid = valid;
      })

  keyed-Trusted :
      (raw : Bytes) (public_key : Text) (k : Option Bytes) (m : Manifest)
      → o.decode_base64 (trim_space public_key) ≡ k
      → with_key o raw k ≡ inl m
      → Trusted o raw public_key m
  keyed-Trusted raw public_key none m decoded h = absurd (ground (arith, h))
  keyed-Trusted raw public_key (some key) m decoded h =
      let (sized, h1) = taken (length key == key_size) _ _ m h in
      signed-Trusted raw public_key key (o.unmarshal raw) m decoded
        ((==_iff (length key) key_size).0 sized) refl h1

  -- A manifest that `Verify` lets pass was parsed from the document, and the configured key, of 32
  -- bytes, verifies its signature over the encoding of the manifest without it.
  pub verify-Trusted :
      (raw : Bytes) (public_key : Text) (m : Manifest)
      → verify o raw public_key ≡ inl m
      → Trusted o raw public_key m
  unfolding verify
  verify-Trusted raw public_key m h =
      let (_, h1) = passed_over (is_empty (trim_space public_key)) _ _ m h in
      keyed-Trusted raw public_key _ m refl h1

-- What stands behind an offer: the URL is https, the server answered 200, and the manifest in the first
-- mebibyte of its body is trusted; the offer is that manifest's build for this platform.
pub record Backed (o : Outside) (c : Checker) (f : Found) : Type 0 where
  pub configured : trim_space c.manifest_url ≢ []
  pub https : has_prefix c.manifest_url (codes "https://") ≡ true
  pub body : Bytes
  pub answer : o.get c.manifest_url ≡ response 200 (some body)
  pub manifest : Manifest
  pub trusted : Trusted o (take manifest_limit body) c.public_key manifest
  pub build : lookup o o.platform manifest.artifacts ≡ some f.artifact
  pub available : f.available ≡ manifest.version
  pub newer : f.newer ≡ is_newer manifest.version c.current

module _ (o : Outside) (c : Checker) where
  -- The part of an offer that comes from the manifest.
  record Built (m : Manifest) (f : Found) : Type 0 where
    build : lookup o o.platform m.artifacts ≡ some f.artifact
    available : f.available ≡ m.version
    newer : f.newer ≡ is_newer m.version c.current

  same_offer : (f g : Found) → ◌≡◌ {A = Found ⊎ Refusal} (inl f) (inl g) → f ≡ g
  same_offer f g h = ap (λ (x : Found ⊎ Refusal). elim x [ inl k ↦ k | inr e ↦ f ]) h

  found-Built :
      (m : Manifest) (a : Option Artifact) (f : Found)
      → lookup o o.platform m.artifacts ≡ a
      → found o c m a ≡ inl f
      → Built m f
  found-Built m none f looked h = absurd (ground (arith, h))
  found-Built m (some a) f looked h =
      subst (Built m) (same_offer _ f h) (record { build = looked; available = refl; newer = refl })

  offered-Built :
      (v : Manifest ⊎ Refusal) (f : Found)
      → offered o c v ≡ inl f
      → (m : Manifest) × (v ≡ inl m) × Built m f
  offered-Built (inr e) f h = absurd (ground (arith, h))
  offered-Built (inl m) f h = (m, refl, found-Built m (lookup o o.platform m.artifacts) f refl h)

  answered-Backed :
      (r : Response) (f : Found)
      → trim_space c.manifest_url ≢ []
      → has_prefix c.manifest_url (codes "https://") ≡ true
      → o.get c.manifest_url ≡ r
      → answered o c r ≡ inl f
      → Backed o c f
  answered-Backed (no_response e) f set https got h = absurd (ground (arith, h))
  answered-Backed (response status none) f set https got h = absurd (ground (arith, h))
  answered-Backed (response status (some body)) f set https got h =
      let (ok, h1) = taken o (status == 200) _ _ f h in
      let (m, v, b) = offered-Built (verify o (take manifest_limit body) c.public_key) f h1 in
      record {
        configured = set;
        https = https;
        body = body;
        answer = got ∙ ap (λ s. response s (some body)) ((==_iff status 200).0 ok);
        manifest = m;
        trusted = verify-Trusted o (take manifest_limit body) c.public_key m v;
        build = b.build;
        available = b.available;
        newer = b.newer;
      }

  -- Whatever `Check` of the internal server offers is backed by a manifest that was fetched over https
  -- and is signed with the configured key.
  pub check-Backed : (f : Found) → check o c ≡ inl f → Backed o c f
  unfolding check
  check-Backed f h =
      let (set, h1) = passed_over o (is_empty (trim_space c.manifest_url)) _ _ f h in
      let (https, h2) =
        passed_over o (not (has_prefix c.manifest_url (codes "https://"))) _ _ f h1 in
      answered-Backed (o.get c.manifest_url) f
        (λ e. ground (arith, set, (is_empty_iff (trim_space c.manifest_url)).1 e))
        (ground (arith, https)) refl h2
