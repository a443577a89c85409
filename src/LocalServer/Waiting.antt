-- ===== src/LocalServer/Waiting.antt =====
-- `Server.WaitReady` and `Server.probe` of client/internal/localserver/server.go. What one round of the
-- loop sees, the answer of the server and the channel that `select` takes, is an argument.
use local_dictation.Prelude.{
  ℕ, zero, suc, ◌+◌, ◌<◌, ◌==◌, not, Option, none, some, if◌then◌else◌, ◌≡◌, ◌≢◌, refl, sym, ap,
  ◌∙◌, inl, inr, Option-cases, Bool-cases, ltb, arith,
}
use local_dictation.Text.{Text, codes, beq}
use local_dictation.Protocol.{Language}

-- What the request answers: no response, or a status and, where it is JSON, the status and the language
-- in the body.
pub data Reply : Type 0 where
  no_reply : Text → Reply
  reply : ℕ → Option (Text × Text) → Reply

pub data Probe : Type 0 where
  probe_failed not_yet probe_ready : Probe
  wrong_server : Text → Probe

-- In `probe`, the decoded body.
abbrev pub decoded : Language → Option (Text × Text) → Probe
decoded language none = probe_failed
decoded language (some (status, served)) =
    if not (beq served language)
    then wrong_server served
    else if beq status (codes "ready")
    then probe_ready
    else not_yet

-- `probe`
unfoldable pub probe : Language → Reply → Probe
probe language (no_reply e) = probe_failed
probe language (reply status body) = if status == 200 then decoded language body else not_yet

-- The channel that `select` takes: `done`, the context's, or the ticker's.
pub data Signal : Type 0 where
  exited : Text → Signal
  deadline : Signal
  tick : Signal

pub record Round : Type 0 where
  pub answer : Reply
  pub signal : Signal

-- How `WaitReady` returns.
pub data Verdict : Type 0 where
  ready : Verdict
  owned_by_another : Text → Verdict
  exited_early : Text → Verdict
  late : Verdict

-- In the loop, the `select`.
abbrev pub selected : Signal → Option Verdict
selected (exited e) = some (exited_early e)
selected deadline = some late
selected tick = none

-- In the loop, after the probe.
abbrev pub probed : Signal → Probe → Option Verdict
probed s probe_ready = some ready
probed s (wrong_server served) = some (owned_by_another served)
probed s probe_failed = selected s
probed s not_yet = selected s

-- One round of the loop: how it returns, or `none` where it goes round again.
abbrev pub round : Language → Round → Option Verdict
round language r = probed r.signal (probe language r.answer)

abbrev pub returned : Option Verdict → Option Verdict → Option Verdict
returned (some v) again = some v
returned none again = again

-- `WaitReady`, on fuel, from a round on; `none` where the fuel is used up
unfoldable pub wait_ready : Language → (ℕ → Round) → ℕ → ℕ → Option Verdict
wait_ready language rounds zero i = none
wait_ready language rounds (suc fuel) i =
    returned (round language (rounds i)) (wait_ready language rounds fuel (suc i))

module _ (language : Language) (rounds : ℕ → Round) where
  wait_from :
      (n i fuel : ℕ) (v : Verdict)
      → ((k : ℕ) → k < n → round language (rounds (i + k)) ≡ none)
      → round language (rounds (i + n)) ≡ some v
      → n < fuel
      → wait_ready language rounds fuel i ≡ some v
  unfolding wait_ready
  wait_from n i zero v before here h = absurd (omega (arith, h))
  wait_from zero i (suc fuel) v before here h =
      ap (λ r. returned r (wait_ready language rounds fuel (suc i)))
        (ap (λ j. round language (rounds j)) (omega arith) ∙ here)
  wait_from (suc n) i (suc fuel) v before here h =
      ap (λ r. returned r (wait_ready language rounds fuel (suc i)))
        (ap (λ j. round language (rounds j)) (omega arith) ∙ before 0 (omega arith))
      ∙ wait_from n (suc i) fuel v
          (λ k less.
            ap (λ j. round language (rounds j)) (omega arith)
            ∙ before (suc k) (omega (arith, less)))
          (ap (λ j. round language (rounds j)) (omega arith) ∙ here) (omega (arith, h))

  abbrev Before : ℕ → ℕ → Type 0
  Before i m = (k : ℕ) → k < m → round language (rounds (i + k)) ≡ none

  -- The first round that returns, no later than one that does.
  abbrev First : ℕ → ℕ → Type 0
  First i n =
      (m : ℕ) × (u : Verdict) × Before i m
      × (round language (rounds (i + m)) ≡ some u)
      × (m < suc n)

  First-here : (i n : ℕ) (v : Verdict) → round language (rounds i) ≡ some v → First i n
  First-here i n v h = (
    0,
    v,
    λ k less. absurd (omega (arith, less)),
    ap (λ j. round language (rounds j)) (omega arith) ∙ h,
    omega arith,
  )

  First-later : (i n : ℕ) → round language (rounds i) ≡ none → First (suc i) n → First i (suc n)
  First-later i n h (m, u, before, here, less) = (
    suc m,
    u,
    passed,
    ap (λ j. round language (rounds j)) (omega arith) ∙ here,
    omega (arith, less),
  )
    where
      passed : Before i (suc m)
      passed zero _ = ap (λ j. round language (rounds j)) (omega arith) ∙ h
      passed (suc k) less =
          ap (λ j. round language (rounds j)) (omega arith) ∙ before k (omega (arith, less))

  First-from : (n i : ℕ) (v : Verdict) → round language (rounds (i + n)) ≡ some v → First i n
  First-from zero i v h = First-here i 0 v (ap (λ j. round language (rounds j)) (omega arith) ∙ h)
  First-from (suc n) i v h = elim (Option-cases (round language (rounds i))) [
    | inl again ↦
        First-later i n again
          (First-from n (suc i) v (ap (λ j. round language (rounds j)) (omega arith) ∙ h))
    | inr (u, e) ↦ First-here i (suc n) u e
  ]

  signal_returns : (r : Round) → r.signal ≢ tick → (v : Verdict) × (round language r ≡ some v)
  signal_returns r h = by_probe (probe language r.answer) r.signal h
    where
      by_signal : (s : Signal) → s ≢ tick → (v : Verdict) × (selected s ≡ some v)
      by_signal (exited e) h = (exited_early e, refl)
      by_signal deadline h = (late, refl)
      by_signal tick h = absurd (h refl)

      by_probe : (p : Probe) (s : Signal) → s ≢ tick → (v : Verdict) × (probed s p ≡ some v)
      by_probe probe_ready s h = (ready, refl)
      by_probe (wrong_server l) s h = (owned_by_another l, refl)
      by_probe probe_failed s h = by_signal s h
      by_probe not_yet s h = by_signal s h

  -- How the wait ends when it ends in a round up to `n`.
  pub record Returns (n : ℕ) : Type 0 where
    pub first : ℕ
    pub verdict : Verdict
    pub before : (k : ℕ) → k < first → round language (rounds k) ≡ none
    pub decides : round language (rounds first) ≡ some verdict
    pub soon : first < suc n
    pub result : (fuel : ℕ) → n < fuel → wait_ready language rounds fuel 0 ≡ some verdict

  -- Where in some round `select` takes the end of the process or of the time, the wait ends by then,
  -- whatever the server answers, and with the verdict of the first round that has one: ready, the
  -- wrong language, the end of the process, or the end of the time.
  pub wait_ready-Returns : (n : ℕ) → (rounds n).signal ≢ tick → Returns n
  wait_ready-Returns n h =
      let (v, e) = signal_returns (rounds n) h in
      let (m, u, before, here, less) =
        First-from n 0 v (ap (λ j. round language (rounds j)) (omega arith) ∙ e) in
      record {
        first = m;
        verdict = u;
        before = λ k l. ap (λ j. round language (rounds j)) (omega arith) ∙ before k l;
        decides = ap (λ j. round language (rounds j)) (omega arith) ∙ here;
        soon = less;
        result = λ fuel more. wait_from m 0 fuel u before here (omega (arith, less, more));
      }

  same_verdict : (u v : Verdict) → some u ≡ some v → u ≡ v
  same_verdict u v h = ap (λ (o : Option Verdict). elim o [ none ↦ u | some w ↦ w ]) h

  only_ready :
      (r : Round) (u : Verdict)
      → r.signal ≡ tick
      → ((served : Text) → probe language r.answer ≢ wrong_server served)
      → round language r ≡ some u
      → u ≡ ready
  only_ready r u ticks right h =
      by_probe (probe language r.answer) right
        (sym (ap (λ s. probed s (probe language r.answer)) ticks) ∙ h)
    where
      by_probe :
          (p : Probe)
          → ((served : Text) → p ≢ wrong_server served)
          → probed tick p ≡ some u
          → u ≡ ready
      by_probe probe_ready w k = sym (same_verdict ready u k)
      by_probe (wrong_server l) w k = absurd (w l refl)
      by_probe probe_failed w k = absurd (ground (arith, k))
      by_probe not_yet w k = absurd (ground (arith, k))

  -- A server that becomes ready in some round is waited for: where no other server answered on its port
  -- before, and neither the process nor the time had ended before, the wait ends well, even if the
  -- process or the time ends in that very round.
  pub ready_is_waited_for :
      (n : ℕ)
      → probe language (rounds n).answer ≡ probe_ready
      → ((k : ℕ) → k < n → (rounds k).signal ≡ tick)
      → ((k : ℕ) (served : Text) → k < n → probe language (rounds k).answer ≢ wrong_server served)
      → (fuel : ℕ) → n < fuel
      → wait_ready language rounds fuel 0 ≡ some ready
  ready_is_waited_for n here ticks right fuel more =
      let at_n : round language (rounds n) ≡ some ready = ap (probed (rounds n).signal) here in
      let (m, u, before, decides, less) =
        First-from n 0 ready (ap (λ j. round language (rounds j)) (omega arith) ∙ at_n) in
      let at_m : round language (rounds m) ≡ some u =
        ap (λ j. round language (rounds j)) (omega arith) ∙ decides in
      let u_ready : u ≡ ready = elim (Bool-cases (ltb m n)) [
        | inl sooner ↦
            only_ready (rounds m) u (ticks m (ground (arith, sooner)))
              (λ served. right m served (ground (arith, sooner))) at_m
        | inr last ↦
            let same : m ≡ n = ground (arith, last, less) in
            same_verdict u ready (sym at_m ∙ ap (λ j. round language (rounds j)) same ∙ at_n)
      ] in
      wait_from m 0 fuel u before decides (omega (arith, less, more)) ∙ ap some u_ready
