-- ===== src/Dial/Health.antt =====
-- client/internal/dial/health.go
use local_dictation.Prelude.{
  ℕ, Bool, true, false, not, ◌||◌, ◌==◌, [], ◌++◌, Option, none, some, if◌then◌else◌, ◌⊎◌, inl, inr,
}
use local_dictation.Prelude.Int.{ℤ, pos}
use local_dictation.Text.{Text, codes, is_empty, beq, to_lower, contains_text}
use local_dictation.Text.Decimal.{decimal}
use local_dictation.Protocol.{Language, language_name}
use local_dictation.Settings.Config.{Config, mode_local, address, port_for, health_url_for}
use local_dictation.LocalServer.Manager.{Server, running}
use local_dictation.Transport.Tls.{Certificates, TlsConfig, TlsError, build_tls_config}
use local_dictation.Dial.{Dialer}

pub record Health : Type 0 where
  pub language : Language
  pub ok : Bool
  pub detail : Text
  pub model : Text
  pub draft_model : Text
  pub version : Text

pub record Body : Type 0 where
  pub status : Text
  pub language : Text
  pub model : Text
  pub draft_model : Text
  pub version : Text

-- What a request answers: a request that cannot be made, an error, or a status and the body where it is
-- JSON.
pub data Reply : Type 0 where
  no_request no_reply : Text → Reply
  reply : ℕ → Option Body → Reply

-- The result before anything is known.
abbrev pub unknown : Language → Text → Health
unknown language detail = record {
  language = language;
  ok = false;
  detail = detail;
  model = [];
  draft_model = [];
  version = [];
}

-- `describeModels`
abbrev pub describe_models : Text → Text → Text
describe_models model draft =
    if is_empty draft then model else model ++ codes ", drafting with " ++ draft

-- `friendly`
unfoldable pub friendly : Text → Text
friendly e =
    let message = to_lower e in
    if contains_text message (codes "connection refused")
    then codes "Nothing is listening on that port."
    else if contains_text message (codes "no such host")
    then codes "That address does not resolve."
    else if contains_text message (codes "certificate")
    then codes "The server certificate was not trusted. Set the CA certificate in Settings."
    else if contains_text message (codes "timeout")
        || contains_text message (codes "deadline exceeded")
    then codes "Timed out. Check the address and the firewall."
    else e

-- In `probe`, the result with what the body names.
abbrev pub judged : Language → Body → Bool → Text → Health
judged language b ok detail = record {
  language = language;
  ok = ok;
  detail = detail;
  model = b.model;
  draft_model = b.draft_model;
  version = b.version;
}

-- In `probe`, the `switch`.
unfoldable pub judge : Language → ℕ → Body → Health
judge language status b =
    if not (beq b.language language)
    then judged language b false (
        codes "This port serves "
        ++ language_name b.language
        ++ codes ", not "
        ++ language_name language
        ++ codes ". Check the ports.")
    else if status == 503
    then judged language b false (codes "Reachable, still loading the model.")
    else if not (status == 200)
    then judged language b false (codes "HTTP " ++ decimal (pos status))
    else if not (beq b.status (codes "ready"))
    then judged language b false (codes "Reachable, not ready yet.")
    else judged language b true (codes "Ready — " ++ describe_models b.model b.draft_model)

-- `probe`
unfoldable pub probe_health : Language → Reply → Health
probe_health language (no_request e) = unknown language e
probe_health language (no_reply e) = unknown language (friendly e)
probe_health language (reply status none) = unknown language (
    codes "HTTP "
    ++ decimal (pos status)
    ++ codes ", but the response was not a Local Dictation server")
probe_health language (reply status (some b)) = judge language status b

-- What the outside answers; `fetch` takes the address and the TLS configuration of the client.
pub record Network : Type 0 where
  pub exited : ℕ → Bool
  pub port : ℕ → ℤ
  pub certificates : Certificates
  pub fetch : Text → Option TlsConfig → Reply
  pub tls_text : TlsError → Text

-- In `TestConnection`, the server of this machine.
abbrev pub local_health : Network → Language → Option Server → Health
local_health n language none =
    unknown language (codes "Not started yet. It starts the first time you dictate.")
local_health n language (some s) = probe_health language (
    n.fetch (address (codes "http") (codes "127.0.0.1") (n.port s.id) (codes "/health/ready")) none)

-- In `TestConnection`, after `BuildTLSConfig`.
abbrev pub remote_health : Network → Language → Config → Option TlsConfig ⊎ TlsError → Health
remote_health n language c (inr e) = unknown language (n.tls_text e)
remote_health n language c (inl tls) =
    probe_health language (n.fetch (health_url_for (port_for language c) c) tls)

-- `TestConnection`
unfoldable pub test_connection : Network → Language → Dialer → Health
test_connection n language d =
    let t = d.settings.remote.tls in
    if beq d.settings.mode mode_local
    then local_health n language (running language n.exited d.local)
    else remote_health n language d.settings (
        build_tls_config n.certificates t.enabled t.ca_certificate t.client_certificate t.client_key
          t.insecure_skip_verify)
