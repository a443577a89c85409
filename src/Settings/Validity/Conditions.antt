-- ===== src/Settings/Validity/Conditions.antt =====
-- What it is for settings to be usable.
use local_dictation.Prelude.{◌*◌, ◌^◌, true, [], ◌++◌, ◌≡◌, ◌≢◌, ◌⊎◌, ◌↔◌}
use local_dictation.Prelude.Int.{ℤ, pos, ◌≤ℤ◌}
use local_dictation.Text.{Text, codes, trim_space}
use local_dictation.Protocol.{korean, english}
use local_dictation.Settings.Backend.{is_backend, supported_on}
use local_dictation.Settings.Gain.{Gain, twice}
use local_dictation.Settings.Config.{Config, Remote, Local, Updates, mode_local, mode_remote}

abbrev pub IsPort : ℤ → Type 0
IsPort p = (pos 1 ≤ℤ p) × (p ≤ℤ pos 65535)

-- A client certificate comes with its key, and a key with its certificate.
pub record UsableRemote (r : Remote) : Type 0 where
  pub host : trim_space r.host ≢ []
  pub korean : IsPort r.korean_port
  pub english : IsPort r.english_port
  pub different : r.korean_port ≢ r.english_port
  pub certificate : r.tls.enabled ≡ true → (r.tls.client_certificate ≡ []) ↔ (r.tls.client_key ≡ [])

pub record UsableLocal (goos : Text) (l : Local) : Type 0 where
  pub model : trim_space l.model_path ≢ []
  pub korean : (l.korean_port ≡ pos 0) ⊎ IsPort l.korean_port
  pub english : (l.english_port ≡ pos 0) ⊎ IsPort l.english_port
  pub different : l.korean_port ≢ pos 0 → l.korean_port ≢ l.english_port
  pub threads : pos 0 ≤ℤ l.cpu_threads
  pub speech : (pos 0 ≤ℤ l.min_speech_ms) × (l.min_speech_ms ≤ℤ pos 1000)
  pub backend : is_backend l.backend ≡ true
  pub supported : supported_on l.backend goos ≡ true

-- A gain of zero stands for none.
abbrev pub UsableGain : Gain → Type 0
UsableGain g =
    (g.mantissa ≡ pos 0)
    ⊎ ((pos (2 ^ g.scale) ≤ℤ twice g.mantissa) × (g.mantissa ≤ℤ pos (8 * 2 ^ g.scale)))

abbrev pub https : Text
https = codes "https://"

abbrev pub UsableUpdates : Updates → Type 0
UsableUpdates u =
    (u.manifest_url ≡ [])
    ⊎ (((rest : Text) × (u.manifest_url ≡ https ++ rest)) × (u.public_key ≢ []))

pub record Usable (goos : Text) (c : Config) : Type 0 where
  pub mode :
      ((c.mode ≡ mode_local) × UsableLocal goos c.local)
      ⊎ ((c.mode ≡ mode_remote) × UsableRemote c.remote)
  pub language : (c.language ≡ korean) ⊎ (c.language ≡ english)
  pub key : c.hotkey.key ≢ []
  pub gain : UsableGain c.audio.gain
  pub updates : UsableUpdates c.update
