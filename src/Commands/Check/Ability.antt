-- ===== src/Commands/Check/Ability.antt =====
-- What the check's exit code says of the machine.
use mathlib.Core.Path.{subst}
use local_dictation.Prelude.{
  ℕ, zero, suc, ◌≤◌, Bool, true, false, not, ◌&&◌, ◌==◌, ==_iff, List, [], ◌∷◌, Option, none, some,
  if◌then◌else◌, ◌⊎◌, inl, inr, ◌≡◌, ◌≢◌, ◌↔◌, refl, ◌∙◌, arith,
}
use local_dictation.Text.{Text, codes, is_empty, beq}
use local_dictation.Text.Laws.{beq_iff, is_empty_iff}
use local_dictation.Settings.Backend.{normalise, supported_on, weights}
use local_dictation.Settings.Config.{Config, Local, mode_local}
use local_dictation.Settings.Validate.{Problem, validate}
use local_dictation.LocalServer.Python.{Interpreter, find_python}
use local_dictation.LocalServer.Detector.{resolve_detector}
use local_dictation.LocalServer.Folder.{resolve_server_dir, default_python_candidates}
use local_dictation.Commands.Check.{
  Checked, Line, Detail, Machine, report_line, check_settings, check_capture, check_cursor,
  check_draft, check_detector, check_model, check_weights, check_decoder, check_folder, words,
  python_line, check_local_server, check_server, concluded, checked_lines, run_check,
}

-- A check that finds `m` problems and leaves `n` counts no problem away, and counts one exactly where
-- `P` fails.
abbrev Tell : ℕ → ℕ → Type 0 → Type 0
Tell m n P = (m ≤ n) × ((n ≡ m) ↔ P)

abbrev Tells : (Checked → Checked) → Type 0 → Type 0
Tells f P = (c : Checked) → Tell c.problems (f c).problems P

held : (m : ℕ) (P : Type 0) → P → Tell m m P
held m P p = (omega arith, (λ _. p, λ _. refl))

failed : (m : ℕ) (P : Type 0) → (P → ⊥) → Tell m (suc m) P
failed m P n = (omega arith, ((λ (e : suc m ≡ m). absurd (omega (arith, e))), (λ p. absurd (n p))))

report_line-Tells :
    (name : Text) (b : Bool) (d : Detail) (P : Type 0)
    → ((b ≡ true) ↔ P)
    → Tells (report_line name b d) P
report_line-Tells name true d P (f, g) c = held c.problems P (f refl)
report_line-Tells name false d P (f, g) c = failed c.problems P (λ p. ground (arith, g p))

-- Two checks, one after the other.
both : (m n k : ℕ) (P Q : Type 0) → Tell m n P → Tell n k Q → Tell m k (P × Q)
both m n k P Q (low, (p_then, p_if)) (high, (q_then, q_if)) = (
  omega (arith, low, high),
  (
    (λ (e : k ≡ m). (p_then (omega (arith, low, high, e)), q_then (omega (arith, low, high, e)))),
    (λ h. q_if h.1 ∙ p_if h.0),
  ),
)

means : (m n : ℕ) (P Q : Type 0) → (P ↔ Q) → Tell m n P → Tell m n Q
means m n P Q (pq, qp) (low, (p_then, p_if)) = (low, ((λ e. pq (p_then e)), (λ q. p_if (qp q))))

branch :
    (b : Bool) (f g : Checked → Checked) (P : Type 0)
    → (b ≡ true → Tells f P)
    → (b ≡ false → Tells g P)
    → Tells (λ c. if b then f c else g c) P
branch true f g P tf tg = tf refl
branch false f g P tf tg = tg refl

check_settings-Tells : (s : Config) (ps : List Problem) → Tells (check_settings s ps) (ps ≡ [])
check_settings-Tells s [] c = held c.problems ([] ≡ []) refl
check_settings-Tells s (p ∷ ps) c = failed c.problems (p ∷ ps ≡ []) (λ h. ground (arith, h))

-- The audio library starts and lists its devices.
abbrev pub Records : ℕ ⊎ Text → Option Text → Type 0
Records devices started = (started ≡ none) × ((n : ℕ) × (devices ≡ inl n))

check_capture-Tells :
    (devices : ℕ ⊎ Text) (started : Option Text)
    → Tells (check_capture devices started) (Records devices started)
check_capture-Tells devices (some e) c =
    failed c.problems (Records devices (some e)) (λ r. ground (arith, r.0))
check_capture-Tells (inl n) none c = held c.problems (Records (inl n) none) (refl, (n, refl))
check_capture-Tells (inr e) none c =
    failed c.problems (Records (inr e) none) (λ r. let (n, h) = r.1 in ground (arith, h))

exit_code :
    (none_wrong none_warned : Bool) (lines : List Line) (x y z : Text)
    → ((if◌then◌else◌ {A = ℕ × List Line × Text}
          (none_wrong && none_warned)
          (0, lines, x)
          (if◌then◌else◌ {A = ℕ × List Line × Text} none_wrong (0, lines, y) (1, lines, z))).0
        ≡ 0)
      ↔ (none_wrong ≡ true)
exit_code true true lines x y z = ((λ _. refl), (λ _. refl))
exit_code true false lines x y z = ((λ _. refl), (λ _. refl))
exit_code false warned lines x y z =
    ((λ (h : suc zero ≡ zero). ground (arith, h)), (λ h. ground (arith, h)))

concluded_iff : (c : Checked) → ((concluded c).0 ≡ 0) ↔ (c.problems ≡ 0)
unfolding concluded
concluded_iff c =
    let code = exit_code (c.problems == 0) (c.warnings == 0) c.lines _ _ _ in
    ((λ e. (==_iff c.problems 0).0 (code.0 e)), (λ e. code.1 ((==_iff c.problems 0).1 e)))

module _ (w : Machine) where
  -- The model's folder is named, is there, and has the weights that the backend reads.
  abbrev pub HasModel : Local → Type 0
  HasModel l =
      (l.model_path ≢ [])
      × (w.host.is_directory l.model_path ≡ true)
      × (w.host.exists (w.host.join_path l.model_path (weights (normalise l.backend))) ≡ true)

  -- A draft model that is named has them too.
  abbrev pub HasDraft : Local → Type 0
  HasDraft l =
      (l.draft_model_path ≡ [])
      ⊎ (w.host.exists (w.host.join_path l.draft_model_path (weights (normalise l.backend))) ≡ true)

  check_draft-Tells : (l : Local) → Tells (check_draft w l) (HasDraft l)
  check_draft-Tells l =
      branch (is_empty l.draft_model_path) _ _ (HasDraft l)
        (λ e c. held c.problems (HasDraft l) (inl ((is_empty_iff l.draft_model_path).0 e)))
        (λ e. report_line-Tells _ _ _ (HasDraft l) (
          (λ h. inr h),
          (λ d. elim d [
            | inl n ↦ ground (arith, e, (is_empty_iff l.draft_model_path).1 n)
            | inr h ↦ h
          ]),
        ))

  check_detector-same :
      (detector : Text) (c : Checked) → (check_detector w detector c).problems ≡ c.problems
  unfolding is_empty
  check_detector-same [] c = refl
  check_detector-same (x ∷ xs) c = refl

  check_model-Tells : (l : Local) → Tells (check_model w l) (HasModel l)
  check_model-Tells l =
      branch (is_empty l.model_path) _ _ (HasModel l)
        (λ e c. failed c.problems (HasModel l) (λ h. h.0 ((is_empty_iff l.model_path).0 e)))
        (λ named.
          branch (not (w.host.is_directory l.model_path)) _ _ (HasModel l)
            (λ e c. failed c.problems (HasModel l) (λ h. ground (arith, e, h.1)))
            (λ there.
              branch
                (not
                  (w.host.exists (w.host.join_path l.model_path (weights (normalise l.backend)))))
                _ _ (HasModel l)
                (λ e c. failed c.problems (HasModel l) (λ h. ground (arith, e, h.2)))
                (λ read c. held c.problems (HasModel l) (
                  (λ n. ground (arith, named, (is_empty_iff l.model_path).1 n)),
                  ground (arith, there),
                  ground (arith, read),
                ))))

  -- The interpreter that `FindPython` answers, for the settings.
  abbrev pub found_python : Local → Option Interpreter
  found_python l = find_python w.host l.python_path (default_python_candidates w.host.windows)

  abbrev pub Runs : Local → Option Interpreter → Type 0
  Runs l answer = ((i : Interpreter) × (answer ≡ some i)) × HasModel l × HasDraft l

  check_weights-Tells :
      (l : Local) (answer : Option Interpreter) → Tells (check_weights w l answer) (Runs l answer)
  check_weights-Tells l none c =
      failed c.problems (Runs l none) (λ h. let (i, e) = h.0 in ground (arith, e))
  check_weights-Tells l (some i) c =
      let found = python_line i c in
      let m = check_model w l found in
      let d = check_detector w (resolve_detector w.files l.vad_model_path l.model_path) m in
      let same = check_detector-same (resolve_detector w.files l.vad_model_path l.model_path) m in
      let draft =
        subst (λ n. Tell n (check_draft w l d).problems (HasDraft l)) same
          (check_draft-Tells l d) in
      means c.problems (check_draft w l d).problems (HasModel l × HasDraft l) (Runs l (some i))
        ((λ h. ((i, refl), h.0, h.1)), (λ h. (h.1, h.2)))
        (both c.problems m.problems (check_draft w l d).problems (HasModel l) (HasDraft l)
          (check_model-Tells l found) draft)

  -- All that a local server needs before it is started.
  abbrev pub Serves : Local → Type 0
  Serves l =
      ((dir : Text) × (resolve_server_dir w.place l.server_dir ≡ inl dir))
      × (supported_on (normalise l.backend) w.goos ≡ true)
      × Runs l (found_python l)

  check_folder-Tells :
      (l : Local) (answer : Text ⊎ List Text)
      → Tells (check_folder w l answer) (
          ((dir : Text) × (answer ≡ inl dir))
          × (supported_on (normalise l.backend) w.goos ≡ true)
          × Runs l (found_python l))
  check_folder-Tells l (inr tried) c =
      failed c.problems _ (λ h. let (dir, e) = h.0 in ground (arith, e))
  check_folder-Tells l (inl dir) c =
      let Decodes = supported_on (normalise l.backend) w.goos ≡ true in
      let found = report_line (codes "server files") true (words dir) c in
      let b = check_decoder w (normalise l.backend) found in
      let r = check_weights w l (found_python l) b in
      means c.problems r.problems (Decodes × Runs l (found_python l)) _
        ((λ h. ((dir, refl), h.0, h.1)), (λ h. (h.1, h.2)))
        (both c.problems b.problems r.problems Decodes (Runs l (found_python l))
          (report_line-Tells _ _ _ Decodes ((λ h. h), (λ h. h)) found)
          (check_weights-Tells l (found_python l) b))

  check_server-Tells :
      (s : Config) → Tells (check_server w s) (s.mode ≡ mode_local → Serves s.local)
  unfolding check_local_server
  check_server-Tells s =
      branch (beq s.mode mode_local) _ _ (s.mode ≡ mode_local → Serves s.local)
        (λ e c.
          means c.problems
            (check_folder w s.local (resolve_server_dir w.place s.local.server_dir) c).problems
            (Serves s.local) _ ((λ h _. h), (λ h. h ((beq_iff s.mode mode_local).0 e)))
            (check_folder-Tells s.local (resolve_server_dir w.place s.local.server_dir) c))
        (λ e c.
          held c.problems _ (λ m. absurd (ground (arith, e, (beq_iff s.mode mode_local).1 m))))

  -- What dictation with these settings needs on this machine.
  abbrev pub Able : Config → Type 0
  Able s =
      (validate w.goos s ≡ [])
      × (w.available ≡ true)
      × Records w.devices w.new_capture
      × (s.mode ≡ mode_local → Serves s.local)

  checked_lines-Tells : (s : Config) → ((checked_lines w s).problems ≡ 0) ↔ Able s
  unfolding checked_lines
  checked_lines-Tells s =
      let c0 : Checked = record { problems = 0; warnings = 0; lines = [] } in
      let c1 = check_settings s (validate w.goos s) c0 in
      let c2 = check_cursor w c1 in
      let c3 = check_capture w.devices w.new_capture c2 in
      let c4 = check_server w s c3 in
      let Served = s.mode ≡ mode_local → Serves s.local in
      let heard =
        both c2.problems c3.problems c4.problems (Records w.devices w.new_capture) Served
          (check_capture-Tells w.devices w.new_capture c2) (check_server-Tells s c3) in
      let typed =
        both c1.problems c2.problems c4.problems (w.available ≡ true)
          (Records w.devices w.new_capture × Served)
          (report_line-Tells _ _ _ (w.available ≡ true) ((λ h. h), (λ h. h)) c1) heard in
      let all =
        both 0 c1.problems c4.problems (validate w.goos s ≡ []) _
          (check_settings-Tells s (validate w.goos s) c0) typed in
      (
        (λ e. let (v, (a, (r, l))) = all.1.0 e in (v, a, r, l)),
        (λ h. all.1.1 (h.0, (h.1, (h.2, h.3)))),
      )

  -- The exit code of the check is 0 exactly where the settings are valid, text can be written at the
  -- cursor, the audio library starts and lists its devices and, in local mode, the server's folder, a
  -- backend for this system, an interpreter and the weights of the model and of a draft model that is
  -- named are there.
  pub run_check_iff : (s : Config) → ((run_check w s).0 ≡ 0) ↔ Able s
  unfolding run_check
  run_check_iff s =
      let code = concluded_iff (checked_lines w s) in
      let lines = checked_lines-Tells s in ((λ e. lines.0 (code.0 e)), (λ h. code.1 (lines.1 h)))
