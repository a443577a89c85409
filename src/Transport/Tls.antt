-- ===== src/Transport/Tls.antt =====
-- `BuildTLSConfig` and `describeDialError` of client/internal/transport/client.go. The file system and the
-- packages of certificates are the record `Certificates`.
use local_dictation.Prelude.{
  ℕ, Bool, not, ◌&&◌, ◌||◌, ◌==◌, Option, none, some, if◌then◌else◌, ◌⊎◌, inl, inr, ◌++◌,
}
use local_dictation.Prelude.Int.{pos}
use local_dictation.Text.{Text, codes, is_empty}
use local_dictation.Text.Decimal.{decimal}

-- What the outside answers; a pool and a pair of certificate and key are texts.
pub record Certificates : Type 0 where
  pub read_file : Text → Text ⊎ Text
  pub pool_of : Text → Option Text
  pub load_pair : Text → Text → Text ⊎ Text

-- `tls.Config`; the least version is always TLS 1.2.
pub record TlsConfig : Type 0 where
  pub insecure_skip_verify : Bool
  pub roots : Option Text
  pub certificate : Option Text

pub data TlsError : Type 0 where
  ca_unreadable : Text → TlsError
  no_certificates : Text → TlsError
  half_pair : TlsError
  pair_unreadable : Text → TlsError

abbrev pub plain : Bool → TlsConfig
plain insecure = record { insecure_skip_verify = insecure; roots = none; certificate = none }

module _ (w : Certificates) where
  -- In `BuildTLSConfig`, the loaded pair.
  abbrev pub with_loaded : Text ⊎ Text → TlsConfig → TlsConfig ⊎ TlsError
  with_loaded (inr e) c = inr (pair_unreadable e)
  with_loaded (inl pair) c = inl (record c { certificate = some pair })

  -- In `BuildTLSConfig`, the client certificate.
  abbrev pub with_pair : Text → Text → TlsConfig → TlsConfig ⊎ TlsError
  with_pair certificate key c =
      if is_empty certificate && is_empty key
      then inl c
      else if is_empty certificate || is_empty key
      then inr half_pair
      else with_loaded (w.load_pair certificate key) c

  -- In `BuildTLSConfig`, the pool of the CA certificate.
  abbrev pub with_pool : Text → Option Text → Text → Text → TlsConfig → TlsConfig ⊎ TlsError
  with_pool ca none certificate key c = inr (no_certificates ca)
  with_pool ca (some pool) certificate key c =
      with_pair certificate key (record c { roots = some pool })

  -- In `BuildTLSConfig`, the file of the CA certificate.
  abbrev pub with_file : Text → Text ⊎ Text → Text → Text → TlsConfig → TlsConfig ⊎ TlsError
  with_file ca (inr e) certificate key c = inr (ca_unreadable e)
  with_file ca (inl pem) certificate key c = with_pool ca (w.pool_of pem) certificate key c

  -- In `BuildTLSConfig`, where TLS is on.
  unfoldable pub enabled_tls : Text → Text → Text → Bool → TlsConfig ⊎ TlsError
  enabled_tls ca certificate key insecure =
      if is_empty ca
      then with_pair certificate key (plain insecure)
      else with_file ca (w.read_file ca) certificate key (plain insecure)

  abbrev pub optional : TlsConfig ⊎ TlsError → Option TlsConfig ⊎ TlsError
  optional (inr e) = inr e
  optional (inl c) = inl (some c)

  -- `BuildTLSConfig`
  unfoldable pub build_tls_config : Bool → Text → Text → Text → Bool → Option TlsConfig ⊎ TlsError
  build_tls_config enabled ca certificate key insecure =
      if not enabled then inl none else optional (enabled_tls ca certificate key insecure)

-- What is known of a failed handshake: the status of a response, 0 where there was none, and what the
-- error is, tested in this order.
pub record DialFailure : Type 0 where
  pub status : ℕ
  pub untrusted : Bool
  pub of_network : Bool
  pub deadline_exceeded : Bool
  pub text : Text

-- `describeDialError`
unfoldable pub describe_dial_error : Text → DialFailure → Text
describe_dial_error endpoint f =
    let front = codes "connect to " ++ endpoint ++ codes ": " in
    if not (f.status == 0) && not (f.status == 101)
    then front
      ++ codes "server answered HTTP "
      ++ decimal (pos f.status)
      ++ codes " (is that the dictation port?)"
    else if f.untrusted
    then front
      ++ codes
          "the server certificate was not trusted — point Settings at your internal CA certificate: "
      ++ f.text
    else if f.of_network && f.deadline_exceeded
    then front ++ codes "timed out — check the address and that the server is running"
    else if f.deadline_exceeded
    then front ++ codes "timed out"
    else front ++ f.text
