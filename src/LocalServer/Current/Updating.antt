-- ===== src/LocalServer/Current/Updating.antt =====
-- `Update`.
use mathlib.Core.Path.{subst}
use local_dictation.Prelude.{
  Bool, true, false, ◌&&◌, [], if◌then◌else◌, ◌≡◌, refl, sym, ap, ◌∙◌, arith,
}
use local_dictation.Prelude.Int.{ℤ, eq_of_parts}
use local_dictation.Text.Laws.{beq_iff, beq_refl}
use local_dictation.Settings.Config.{eqb_ℤ}
use local_dictation.Settings.Backend.{normalise}
use local_dictation.LocalServer.Manager.{
  ManagerSettings, Manager, stop_all, same_settings, same_runtime, update,
}
use local_dictation.LocalServer.Current.Invariant.{Tidy, stop_all-Tidy}

eqb_same : (a b : ℤ) → eqb_ℤ a b ≡ true → a ≡ b
eqb_same a b h = eq_of_parts a b (ground (arith, h))

both : (x y : Bool) → (x && y) ≡ true → (x ≡ true) × (y ≡ true)
both x y h = (ground (arith, h), ground (arith, h))

pub same : (a b : ManagerSettings) → same_settings a b ≡ true → a ≡ b
same a b h =
    let (h1, english) = both _ _ h in
    let (h2, korean) = both _ _ h1 in
    let (h3, backend) = both _ _ h2 in
    let (h4, speech) = both _ _ h3 in
    let (h5, threads) = both _ _ h4 in
    let (h6, state) = both _ _ h5 in
    let (h7, vad) = both _ _ h6 in
    let (h8, draft) = both _ _ h7 in
    let (h9, model) = both _ _ h8 in
    let (python, server) = both _ _ h9 in
    let e1 = (beq_iff a.python_path b.python_path).0 python in
    let e2 = (beq_iff a.server_dir b.server_dir).0 server in
    let e3 = (beq_iff a.model_path b.model_path).0 model in
    let e4 = (beq_iff a.draft_model_path b.draft_model_path).0 draft in
    let e5 = (beq_iff a.vad_model_path b.vad_model_path).0 vad in
    let e6 = (beq_iff a.state_dir b.state_dir).0 state in
    let e7 = eqb_same a.cpu_threads b.cpu_threads threads in
    let e8 = eqb_same a.min_speech_ms b.min_speech_ms speech in
    let e9 = (beq_iff a.backend b.backend).0 backend in
    let e10 = eqb_same a.korean_port b.korean_port korean in
    let e11 = eqb_same a.english_port b.english_port english in
    λ i. record {
      python_path = e1 i;
      server_dir = e2 i;
      model_path = e3 i;
      draft_model_path = e4 i;
      vad_model_path = e5 i;
      state_dir = e6 i;
      cpu_threads = e7 i;
      min_speech_ms = e8 i;
      backend = e9 i;
      korean_port = e10 i;
      english_port = e11 i;
    }

runtime_refl : (a : ManagerSettings) → same_runtime a a ≡ true
runtime_refl a =
    ground (arith, beq_refl a.python_path, beq_refl a.server_dir, beq_refl (normalise a.backend))

pub update-Tidy : (s : ManagerSettings) (m : Manager) → Tidy m → Tidy (update s m)
unfolding update
update-Tidy s m t = chosen (same_settings m.settings s) refl
  where
    next : Manager
    next =
        record (if same_runtime m.settings s
          then m
          else record m { python = []; server_dir = [] }) { settings = s }

    kept : m.settings ≡ s → same_runtime m.settings s ≡ true
    kept e = ap (λ x. same_runtime m.settings x) (sym e) ∙ runtime_refl m.settings

    unchanged :
        (b : Bool)
        → b ≡ true
        → m.settings ≡ s
        → Tidy
            (record (if b then m else record m { python = []; server_dir = [] }) { settings = s })
    unchanged false h e = absurd (ground (arith, h))
    unchanged true h e =
        subst (λ x. Tidy (record m { settings = x })) e
          (record { current = t.current; found = t.found })

    chosen : (b : Bool) → same_settings m.settings s ≡ b → Tidy (if b then next else stop_all next)
    chosen false h = stop_all-Tidy next
    chosen true h = let e = same m.settings s h in unchanged (same_runtime m.settings s) (kept e) e
