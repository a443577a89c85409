-- ===== src/Dial/Secure.antt =====
-- What `BuildTLSConfig` makes of the settings.
use local_dictation.Prelude.{
  true, false, [], not, ◌&&◌, ◌||◌, Option, none, some, ◌⊎◌, inl, inr, ◌≡◌, refl, arith, if_cases,
}
use local_dictation.Text.{Text, is_empty}
use local_dictation.Text.Laws.{is_empty_iff}
use local_dictation.Settings.Config.{Tls}
use local_dictation.Transport.Tls.{
  Certificates, TlsConfig, TlsError, with_loaded, with_pair, with_pool, with_file, enabled_tls,
  optional, plain, build_tls_config,
}

-- The server is verified against the certificates of the CA file that is set, or against those of the
-- system where none is set.
abbrev pub Verifies : Certificates → Text → Option Text → Type 0
Verifies w ca roots =
    ((ca ≡ []) × (roots ≡ none))
    ⊎ ((pem : Text) × (pool : Text) × (w.read_file ca ≡ inl pem)
        × (w.pool_of pem ≡ some pool)
        × (roots ≡ some pool))

-- The client shows the pair of certificate and key that is set, or nothing where none is set.
abbrev pub Presents : Certificates → Text → Text → Option Text → Type 0
Presents w certificate key shown =
    ((certificate ≡ []) × (key ≡ []) × (shown ≡ none))
    ⊎ ((pair : Text) × (w.load_pair certificate key ≡ inl pair) × (shown ≡ some pair))

-- A configuration of TLS that does what the settings say: it is there exactly where TLS is on, verifies
-- the server unless that is turned off, against the certificates that are set, and shows the client
-- certificate that is set.
abbrev pub Secures : Certificates → Tls → Option TlsConfig → Type 0
Secures w t none = t.enabled ≡ false
Secures w t (some c) =
    (t.enabled ≡ true)
    × (c.insecure_skip_verify ≡ t.insecure_skip_verify)
    × Verifies w t.ca_certificate c.roots
    × Presents w t.client_certificate t.client_key c.certificate

module _ (w : Certificates) (t : Tls) where
  -- What the settings say of the configuration that is built.
  abbrev Keeps : TlsConfig ⊎ TlsError → Type 0
  Keeps (inr e) = Unit
  Keeps (inl c) =
      (c.insecure_skip_verify ≡ t.insecure_skip_verify)
      × Verifies w t.ca_certificate c.roots
      × Presents w t.client_certificate t.client_key c.certificate

  -- Before the client certificate is loaded.
  record Begun (c : TlsConfig) : Type 0 where
    pub insecure : c.insecure_skip_verify ≡ t.insecure_skip_verify
    pub verifies : Verifies w t.ca_certificate c.roots
    pub bare : c.certificate ≡ none

  with_loaded-Keeps :
      (p : Text ⊎ Text) (c : TlsConfig)
      → w.load_pair t.client_certificate t.client_key ≡ p
      → Begun c
      → Keeps (with_loaded w p c)
  with_loaded-Keeps (inr e) c k h = tt
  with_loaded-Keeps (inl p) c k h = (h.insecure, h.verifies, inr (p, k, refl))

  with_pair-Keeps :
      (c : TlsConfig) → Begun c → Keeps (with_pair w t.client_certificate t.client_key c)
  with_pair-Keeps c h =
      let certificate = t.client_certificate in
      let key = t.client_key in
      if_cases Keeps (is_empty certificate && is_empty key) _ _
        (λ e. (
          h.insecure,
          h.verifies,
          inl (
            (is_empty_iff certificate).0 (ground (arith, e)),
            (is_empty_iff key).0 (ground (arith, e)),
            h.bare,
          ),
        ))
        (λ _.
          if_cases Keeps (is_empty certificate || is_empty key) _ _ (λ _. tt)
            (λ _. with_loaded-Keeps (w.load_pair certificate key) c refl h))

  with_pool-Keeps :
      (pem : Text) (pool : Option Text)
      → w.read_file t.ca_certificate ≡ inl pem
      → w.pool_of pem ≡ pool
      → Keeps (
          with_pool w t.ca_certificate pool t.client_certificate t.client_key
            (plain t.insecure_skip_verify))
  with_pool-Keeps pem none r k = tt
  with_pool-Keeps pem (some p) r k =
      with_pair-Keeps (record (plain t.insecure_skip_verify) { roots = some p })
        (record { insecure = refl; verifies = inr (pem, p, r, k, refl); bare = refl })

  with_file-Keeps :
      (f : Text ⊎ Text)
      → w.read_file t.ca_certificate ≡ f
      → Keeps (
          with_file w t.ca_certificate f t.client_certificate t.client_key
            (plain t.insecure_skip_verify))
  with_file-Keeps (inr e) r = tt
  with_file-Keeps (inl pem) r = with_pool-Keeps pem (w.pool_of pem) r refl

  enabled_tls-Keeps :
      Keeps
        (enabled_tls w t.ca_certificate t.client_certificate t.client_key t.insecure_skip_verify)
  unfolding enabled_tls
  enabled_tls-Keeps =
      if_cases Keeps (is_empty t.ca_certificate) _ _
        (λ e. with_pair-Keeps (plain t.insecure_skip_verify) (record {
          insecure = refl;
          verifies = inl ((is_empty_iff t.ca_certificate).0 e, refl);
          bare = refl;
        }))
        (λ _. with_file-Keeps (w.read_file t.ca_certificate) refl)

  abbrev pub SecuresAll : Option TlsConfig ⊎ TlsError → Type 0
  SecuresAll (inr e) = Unit
  SecuresAll (inl c) = Secures w t c

  optional-Secures :
      (r : TlsConfig ⊎ TlsError) → t.enabled ≡ true → Keeps r → SecuresAll (optional w r)
  optional-Secures (inr e) on h = tt
  optional-Secures (inl c) on (x, y, z) = (on, x, y, z)

  pub build-Secures : SecuresAll (
      build_tls_config w t.enabled t.ca_certificate t.client_certificate t.client_key
        t.insecure_skip_verify)
  unfolding build_tls_config
  build-Secures =
      if_cases SecuresAll (not t.enabled) _ _ (λ e. ground (arith, e))
        (λ e. optional-Secures _ (ground (arith, e)) enabled_tls-Keeps)
