-- ===== src/Tests/Singleton.antt =====
-- A copy that dies and one that takes its place; a release that another start overtakes.
use local_dictation.Prelude.{ℕ, List, [], ◌∷◌, Option, none, some, ◌≡◌, refl, arith}
use local_dictation.Singleton.{
  Copy, holding, System, first_system, put, Event, opens, locks, unlocks, removes, open_lock, flock,
  next_step, step, Run, finished, after,
}
use local_dictation.Singleton.Exclusive.{Unreleased, Run-exclusive}

-- Steps of copies, in their order, where each can be done.
unfoldable after_steps : List (ℕ × Event) → System → Option System
after_steps [] s = some s
after_steps ((p, e) ∷ l) s = elim (step p e s) [ none ↦ none | some t ↦ after_steps l t ]

abbrev places : Option System → List Copy
places none = []
places (some s) = s.copies 1 ∷ s.copies 2 ∷ []

-- Copy 0 unlocks, copy 1 locks the same file, copy 0 removes its name, copy 2 locks a new file: both run.
overtaken_release :
    places (
      after_steps
        ((0, opens)
          ∷ (0, locks)
          ∷ (1, opens)
          ∷ (0, unlocks)
          ∷ (1, locks)
          ∷ (0, removes)
          ∷ (2, opens)
          ∷ (2, locks)
          ∷ [])
        first_system)
    ≡ holding 0 ∷ holding 1 ∷ []
unfolding after_steps next_step put
overtaken_release = refl

abbrev asked : System
asked = open_lock 0 none first_system

abbrev running : System
running = flock 0 0 none asked

abbrev refused : System
refused = flock 1 0 (some 0) (open_lock 1 (some 0) running)

taken : Run Unreleased first_system refused
unfolding next_step put
taken =
    after _ asked _ 0 opens (λ h. ground (arith, h)) refl
      (after _ running _ 0 locks (λ h. ground (arith, h)) refl
        (after _ (open_lock 1 (some 0) running) _ 1 opens (λ h. ground (arith, h)) refl
          (after _ refused _ 1 locks (λ h. ground (arith, h)) refl (finished refused))))

still_running : refused.copies 0 ≡ holding 0
unfolding put
still_running = refl

Run-exclusive_example : ◌≡◌ {A = ℕ} 0 0
Run-exclusive_example = Run-exclusive refused 0 0 0 0 taken still_running still_running
