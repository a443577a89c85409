-- ===== src/Dial.antt =====
-- `Dialer` of client/internal/dial: from the settings to a connection. What the manager, the file system
-- and the processes answer is an argument; the log of progress is left out.
pub mod Health
pub mod Secure
pub mod Reaches
use local_dictation.Prelude.{ℕ, Bool, ◌&&◌, Option, none, some, if◌then◌else◌, ◌⊎◌, inl, inr}
use local_dictation.Prelude.Int.{ℤ}
use local_dictation.Text.{Text, beq}
use local_dictation.Protocol.{Language}
use local_dictation.Settings.Config.{Config, mode_local, mode_remote, port_for, endpoint_for}
use local_dictation.LocalServer.Manager.{
  ManagerSettings, Manager, Server, Answers, Result, new_manager, ensure, update, stop_all,
}
use local_dictation.Transport.Tls.{Certificates, TlsConfig, TlsError, build_tls_config}

-- `managerSettings`
unfoldable pub manager_settings : Config → Text → ManagerSettings
manager_settings c state_dir = record {
  python_path = c.local.python_path;
  server_dir = c.local.server_dir;
  model_path = c.local.model_path;
  draft_model_path = c.local.draft_model_path;
  vad_model_path = c.local.vad_model_path;
  state_dir = state_dir;
  cpu_threads = c.local.cpu_threads;
  min_speech_ms = c.local.min_speech_ms;
  backend = c.local.backend;
  korean_port = c.local.korean_port;
  english_port = c.local.english_port;
}

-- `Dialer`
pub record Dialer : Type 0 where
  pub settings : Config
  pub local : Manager
  pub state_dir : Text

-- `New`
abbrev pub new_dialer : Config → Text → Dialer
new_dialer c state_dir = record {
  settings = c;
  local = new_manager (manager_settings c state_dir);
  state_dir = state_dir;
}

-- `Update`
unfoldable pub update_dialer : Config → Dialer → Dialer
update_dialer c d = record d {
  settings = c;
  local = update (manager_settings c d.state_dir) d.local;
}

-- `Shutdown`
abbrev pub shutdown : Dialer → Dialer
shutdown d = record d { local = stop_all d.local }

-- What `transport.Dial` is called with.
pub record Attempt : Type 0 where
  pub endpoint : Text
  pub tls : Option TlsConfig

pub data DialError : Type 0 where
  no_server : Text → DialError
  no_tls : TlsError → DialError

-- What the outside answers in `Dial`; `port` is the port of a process.
pub record Outside : Type 0 where
  pub ensured : Answers
  pub port : ℕ → ℤ
  pub certificates : Certificates

module _ (o : Outside) where
  -- In `Dial`, `BuildTLSConfig`.
  abbrev pub tls_of : Config → Option TlsConfig ⊎ TlsError
  tls_of c =
      let t = c.remote.tls in
      build_tls_config o.certificates (beq c.mode mode_remote && t.enabled) t.ca_certificate
        t.client_certificate t.client_key t.insecure_skip_verify

  -- In `Dial`, after `BuildTLSConfig`.
  abbrev pub attempted : Config → ℤ → Option TlsConfig ⊎ TlsError → Attempt ⊎ DialError
  attempted c port (inr e) = inr (no_tls e)
  attempted c port (inl tls) = inl (record { endpoint = endpoint_for port c; tls = tls })

  -- In `Dial`, from the port on.
  abbrev pub attempt_on : Config → ℤ → Attempt ⊎ DialError
  attempt_on c port = attempted c port (tls_of c)

  -- In `Dial`, after `Ensure`.
  abbrev pub with_server : Dialer → Result → Dialer × (Attempt ⊎ DialError)
  with_server d (m, inr e) = (record d { local = m }, inr (no_server e))
  with_server d (m, inl s) = (record d { local = m }, attempt_on d.settings (o.port s.id))

  -- `Dial`, up to the call of `transport.Dial`
  unfoldable pub dial : Language → Dialer → Dialer × (Attempt ⊎ DialError)
  dial language d =
      if beq d.settings.mode mode_local
      then with_server d (ensure language o.ensured d.local)
      else (d, attempt_on d.settings (port_for language d.settings))
