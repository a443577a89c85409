-- ===== src/Settings/Validate.antt =====
-- `Validate` of client/internal/config/config.go. A message is the problem's name and what it quotes.
use local_dictation.Prelude.{Bool, true, false, not, ◌&&◌, ◌||◌, List, [], ◌∷◌, ◌++◌, if◌then◌else◌}
use local_dictation.Prelude.Int.{ℤ, pos, ltb_ℤ}
use local_dictation.Text.{Text, codes, is_empty, beq, has_prefix, trim_space}
use local_dictation.Protocol.{Language, is_language}
use local_dictation.Settings.Backend.{Backend, is_backend, supported_on}
use local_dictation.Settings.Gain.{is_zero, below_half, above_eight}
use local_dictation.Settings.Config.{
  Config, Remote, Local, Mode, mode_local, mode_remote, is_mode, eqb_ℤ,
}

-- What `Validate` and `portProblems` report.
pub data Problem : Type 0 where
  mode_unknown : Mode → Problem
  language_unknown : Language → Problem
  key_required : Problem
  host_required : Problem
  port_required : Text → Problem
  port_out_of_range : Text → ℤ → Problem
  ports_equal : Problem
  certificate_without_key : Problem
  model_required : Problem
  threads_negative : Problem
  speech_out_of_range : ℤ → Problem
  backend_unknown : Backend → Problem
  backend_unsupported : Backend → Problem
  gain_out_of_range : Problem
  manifest_not_https : Problem
  manifest_without_key : Problem

-- `if test { problems = append(problems, p) }`
abbrev pub report : Bool → Problem → List Problem
report true p = p ∷ []
report false p = []

-- The problems that are appended in turn.
unfoldable pub gather : List (List Problem) → List Problem
gather [] = []
gather (ps ∷ rest) = ps ++ gather rest

-- `portProblems`
unfoldable pub port_problems : Text → ℤ → Bool → List Problem
port_problems label port required =
    if eqb_ℤ port (pos 0)
    then report required (port_required label)
    else report (ltb_ℤ port (pos 1) || ltb_ℤ (pos 65535) port) (port_out_of_range label port)

abbrev pub differ : Bool → Bool → Bool
differ true b = not b
differ false b = b

-- In `Validate`, the case `ModeRemote`.
unfoldable pub remote_problems : Remote → List Problem
remote_problems r = gather (
    (report (is_empty (trim_space r.host)) host_required)
    ∷ (port_problems (codes "Korean port") r.korean_port true)
    ∷ (port_problems (codes "English port") r.english_port true)
    ∷ (report (eqb_ℤ r.korean_port r.english_port && not (eqb_ℤ r.korean_port (pos 0))) ports_equal)
    ∷ (report
        (r.tls.enabled && differ (is_empty r.tls.client_certificate) (is_empty r.tls.client_key))
        certificate_without_key)
    ∷ [])

-- In `Validate`, the case `ModeLocal`; `goos` is `runtime.GOOS`.
unfoldable pub local_problems : Text → Local → List Problem
local_problems goos l = gather (
    (report (is_empty (trim_space l.model_path)) model_required)
    ∷ (port_problems (codes "Korean port") l.korean_port false)
    ∷ (port_problems (codes "English port") l.english_port false)
    ∷ (report (not (eqb_ℤ l.korean_port (pos 0)) && eqb_ℤ l.korean_port l.english_port) ports_equal)
    ∷ (report (ltb_ℤ l.cpu_threads (pos 0)) threads_negative)
    ∷ (report (ltb_ℤ l.min_speech_ms (pos 0) || ltb_ℤ (pos 1000) l.min_speech_ms)
        (speech_out_of_range l.min_speech_ms))
    ∷ ((if not (is_backend l.backend)
        then backend_unknown l.backend ∷ []
        else report (not (supported_on l.backend goos)) (backend_unsupported l.backend)))
    ∷ [])

-- `Validate`: it returns no error when there is no problem.
unfoldable pub validate : Text → Config → List Problem
validate goos c = gather (
    (report (not (is_mode c.mode)) (mode_unknown c.mode))
    ∷ (report (not (is_language c.language)) (language_unknown c.language))
    ∷ (report (is_empty c.hotkey.key) key_required)
    ∷ ((if beq c.mode mode_remote
        then remote_problems c.remote
        else if beq c.mode mode_local
        then local_problems goos c.local
        else []))
    ∷ (report (not (is_zero c.audio.gain) && (below_half c.audio.gain || above_eight c.audio.gain))
        gain_out_of_range)
    ∷ (report
        (not (is_empty c.update.manifest_url)
          && not (has_prefix c.update.manifest_url (codes "https://")))
        manifest_not_https)
    ∷ (report (not (is_empty c.update.manifest_url) && is_empty c.update.public_key)
        manifest_without_key)
    ∷ [])
