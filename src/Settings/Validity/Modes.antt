-- ===== src/Settings/Validity/Modes.antt =====
-- The settings of one mode.
use local_dictation.Prelude.{
  Bool, true, false, not, [], ◌∷◌, if◌then◌else◌, ◌≡◌, ◌⊎◌, refl, inl, inr, arith, Bool-cases,
}
use local_dictation.Prelude.Int.{ℤ, pos}
use local_dictation.Text.{Text, beq}
use local_dictation.Text.Laws.{beq_iff}
use local_dictation.Protocol.{korean, english}
use local_dictation.Settings.Config.{Remote, Local, mode_local, mode_remote, is_mode}
use local_dictation.Settings.Validate.{
  Problem, report, port_problems, remote_problems, local_problems,
}
use local_dictation.Settings.Validity.Conditions.{IsPort, UsableRemote, UsableLocal}
use local_dictation.Settings.Validity.Reports.{
  report-nil, report_nothing, eqb_iff, port_zero, port_needed, port_allowed, zero_allowed,
  not_empty, is_filled, certificates, both_certificates, ports_differ, differing_ports, gather-nil,
  gather_nils,
}

remote-Usable : (r : Remote) → remote_problems r ≡ [] → UsableRemote r
unfolding remote_problems
remote-Usable r e =
    let (host, (korean, (english, (different, (certificate, _))))) = gather-nil _ e in
    let k = port_needed _ r.korean_port korean in
    record {
      host = not_empty _ (report-nil _ _ host);
      korean = k;
      english = port_needed _ _ english;
      different = λ same.
          ground (arith, report-nil _ _ different, k.0, eqb_iff r.korean_port r.english_port, same);
      certificate = certificates _ _ _ (report-nil _ _ certificate);
    }

usable_remote : (r : Remote) → UsableRemote r → remote_problems r ≡ []
unfolding remote_problems
usable_remote r u = gather_nils _ (
  report_nothing _ (is_filled _ u.host),
  (
    port_allowed _ _ true u.korean,
    (
      port_allowed _ _ true u.english,
      (
        report_nothing _ (ground (arith, eqb_iff r.korean_port r.english_port, u.different)),
        (report_nothing _ (both_certificates _ _ _ u.certificate), tt),
      ),
    ),
  ),
)

backend_fine :
    (v s : Bool) (p q : Problem)
    → (if not v then p ∷ [] else report (not s) q) ≡ []
    → (v ≡ true) × (s ≡ true)
backend_fine v s p q e = (ground (arith, e), ground (arith, e))

local-Usable : (goos : Text) (l : Local) → local_problems goos l ≡ [] → UsableLocal goos l
unfolding local_problems
local-Usable goos l e =
    let (model, (korean, (english, (different, (threads, (speech, (backend, _))))))) =
      gather-nil _ e in
    let (known, supported) = backend_fine _ _ _ _ backend in
    let heard = report-nil _ _ speech in
    record {
      model = not_empty _ (report-nil _ _ model);
      korean = port_zero _ _ korean;
      english = port_zero _ _ english;
      different = ports_differ _ _ (report-nil _ _ different);
      threads = ground (arith, report-nil _ _ threads);
      speech = (ground (arith, heard), ground (arith, heard));
      backend = known;
      supported = supported;
    }

local_port : (label : Text) (p : ℤ) → (p ≡ pos 0) ⊎ IsPort p → port_problems label p false ≡ []
local_port label p (inl z) = zero_allowed label p z
local_port label p (inr h) = port_allowed label p false h

usable_local : (goos : Text) (l : Local) → UsableLocal goos l → local_problems goos l ≡ []
unfolding local_problems
usable_local goos l u = gather_nils _ (
  report_nothing _ (is_filled _ u.model),
  (
    local_port _ _ u.korean,
    (
      local_port _ _ u.english,
      (
        report_nothing _ (differing_ports _ _ u.different),
        (
          report_nothing _ (ground (arith, u.threads)),
          (
            report_nothing _ (ground (arith, u.speech.0, u.speech.1)),
            (ground (arith, u.backend, u.supported), tt),
          ),
        ),
      ),
    ),
  ),
)

pub mode-Usable :
    (goos : Text) (m : Text) (r : Remote) (l : Local)
    → is_mode m ≡ true
    → (if beq m mode_remote
        then remote_problems r
        else if beq m mode_local
        then local_problems goos l
        else [])
      ≡ []
    → ((m ≡ mode_local) × UsableLocal goos l) ⊎ ((m ≡ mode_remote) × UsableRemote r)
unfolding is_mode
mode-Usable goos m r l known e = elim (Bool-cases (beq m mode_remote)) [
  | inl remote ↦ inr ((beq_iff m mode_remote).0 remote, remote-Usable r (ground (arith, remote, e)))
  | inr other ↦
      let here : beq m mode_local ≡ true = ground (arith, known, other) in
      inl ((beq_iff m mode_local).0 here, local-Usable goos l (ground (arith, other, here, e)))
]

mode_known : (m : Text) → (m ≡ mode_local) ⊎ (m ≡ mode_remote) → is_mode m ≡ true
unfolding is_mode beq
mode_known m (inl e) = rw e refl
mode_known m (inr e) = rw e refl

not_remote : (m : Text) → m ≡ mode_local → beq m mode_remote ≡ false
unfolding beq
not_remote m e = rw e refl

local_mode :
    (goos : Text) (m : Text) (r : Remote) (l : Local)
    → m ≡ mode_local
    → local_problems goos l ≡ []
    → (if beq m mode_remote
        then remote_problems r
        else if beq m mode_local
        then local_problems goos l
        else [])
      ≡ []
local_mode goos m r l e h = ground (arith, not_remote m e, (beq_iff m mode_local).1 e, h)

remote_mode :
    (goos : Text) (m : Text) (r : Remote) (l : Local)
    → m ≡ mode_remote
    → remote_problems r ≡ []
    → (if beq m mode_remote
        then remote_problems r
        else if beq m mode_local
        then local_problems goos l
        else [])
      ≡ []
remote_mode goos m r l e h = ground (arith, (beq_iff m mode_remote).1 e, h)

pub usable_mode :
    (goos : Text) (m : Text) (r : Remote) (l : Local)
    → ((m ≡ mode_local) × UsableLocal goos l) ⊎ ((m ≡ mode_remote) × UsableRemote r)
    → (is_mode m ≡ true)
      × ((if beq m mode_remote
            then remote_problems r
            else if beq m mode_local
            then local_problems goos l
            else [])
          ≡ [])
usable_mode goos m r l (inl (e, u)) =
    (mode_known m (inl e), local_mode goos m r l e (usable_local goos l u))
usable_mode goos m r l (inr (e, u)) =
    (mode_known m (inr e), remote_mode goos m r l e (usable_remote r u))
