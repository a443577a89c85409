-- ===== src/Hotkey/Single.antt =====
-- There is one shortcut at most.
use local_dictation.Prelude.{ℕ, Bool, true, List, [], ◌∷◌, none, some, inl, ◌≡◌}
use local_dictation.Text.{Text}
use local_dictation.Hotkey.Keys.{Binding, Modifier, translate}
use local_dictation.Hotkey.Manager.{
  Manager, new_manager, no_binding, unregister, Registered, register,
}

-- The Boolean says whether the operating system releases the registration that is given up.
pub data Call : Type 0 where
  register_call : Binding → Bool → Registered → Call
  unregister_call : Bool → Call

abbrev pub called : Call → Manager → Manager
called (register_call b released answer) m = (register b released answer m).0
called (unregister_call released) m = unregister released m

abbrev pub all_called : List Call → Manager → Manager
all_called [] m = m
all_called (c ∷ cs) m = all_called cs (called c m)

abbrev pub Released : Call → Type 0
Released (register_call b released answer) = released ≡ true
Released (unregister_call released) = released ≡ true

-- Besides the registrations `lost`, nothing is registered, or one chord that can be translated is, and it
-- is the one that `Binding` tells; none but that one has a listener.
pub data Single (lost : List ℕ) (m : Manager) : Type 0 where
  nothing :
      m.current ≡ none
      → m.stop ≡ none
      → m.binding ≡ no_binding
      → m.held ≡ lost
      → m.listeners ≡ []
      → Single lost m
  one :
      (n : ℕ) (c : List Modifier × Text)
      → m.current ≡ some n
      → m.stop ≡ some n
      → translate m.binding ≡ inl c
      → m.held ≡ n ∷ lost
      → m.listeners ≡ n ∷ []
      → Single lost m

-- A manager that has nothing but lost registrations.
abbrev emptied : List ℕ → Manager
emptied lost = record new_manager { held = lost }

-- `lost` grows only where a registration is not released.
record Left (released : Bool) (lost : List ℕ) (m : Manager) : Type 0 where
  pub now : List ℕ
  pub is : m ≡ emptied now
  pub none_lost : released ≡ true → lost ≡ [] → now ≡ []

-- What holds after a call: `lost` has grown only where it could.
record Kept (released : Type 0) (lost : List ℕ) (m : Manager) : Type 0 where
  pub now : List ℕ
  pub single : Single now m
  pub none_lost : released → lost ≡ [] → now ≡ []
