-- ===== src/Hotkey/Manager.antt =====
-- `Manager` of client/internal/hotkey/hotkey.go. A registration is a number; `held` are the ones that the
-- operating system has, `listeners` those whose goroutine calls `onToggle`. What the operating system
-- says is an argument: of a new registration, and of one that is given up, where `released` is false
-- if it fails and keeps the registration; the error is ignored.
use local_dictation.Prelude.{
  ℕ, ◌==◌, Bool, true, false, List, [], ◌∷◌, Option, none, some, if◌then◌else◌, ◌⊎◌, inl, inr,
}
use local_dictation.Text.{Text}
use local_dictation.Hotkey.Keys.{Binding, Modifier, Untranslatable, translate}

pub record Manager : Type 0 where
  pub current : Option ℕ
  pub stop : Option ℕ
  pub binding : Binding
  pub held : List ℕ
  pub listeners : List ℕ

abbrev pub no_binding : Binding
no_binding = record { modifiers = []; key = [] }

-- `New`
abbrev pub new_manager : Manager
new_manager = record {
  current = none;
  stop = none;
  binding = no_binding;
  held = [];
  listeners = [];
}

unfoldable pub without : ℕ → List ℕ → List ℕ
without n [] = []
without n (k ∷ ks) = let rest = without n ks in if k == n then rest else k ∷ rest

-- In `unregisterLocked`, the channel.
abbrev pub stop_listening : Option ℕ → Manager → Manager
stop_listening none m = m
stop_listening (some n) m = record m { listeners = without n m.listeners; stop = none }

-- In `unregisterLocked`, the registration.
abbrev pub give_up : Bool → Option ℕ → Manager → Manager
give_up released none m = m
give_up released (some n) m = record m {
  held = if released then without n m.held else m.held;
  current = none;
}

-- `unregisterLocked`
unfoldable pub unregister_locked : Bool → Manager → Manager
unregister_locked released m =
    let m1 = stop_listening m.stop m in
    let m2 = give_up released m1.current m1 in record m2 { binding = no_binding }

-- `Unregister`
abbrev pub unregister : Bool → Manager → Manager
unregister released m = unregister_locked released m

-- What the operating system says: the new registration, or its error and whether it is about a
-- permission.
abbrev pub Registered : Type 0
Registered = ℕ ⊎ (Text × Bool)

pub data RegisterError : Type 0 where
  untranslatable : Untranslatable → RegisterError
  permission_required : Text → RegisterError
  not_registered : Text → RegisterError

-- In `Register`, after the operating system's answer.
abbrev pub registered : Binding → Registered → Manager → Manager × Option RegisterError
registered b (inr (e, true)) m = (m, some (permission_required e))
registered b (inr (e, false)) m = (m, some (not_registered e))
registered b (inl n) m = (
  record m {
    current = some n;
    stop = some n;
    binding = b;
    held = n ∷ m.held;
    listeners = n ∷ m.listeners;
  },
  none,
)

-- In `Register`, after `translate`.
abbrev pub translated :
    Binding
    → Bool
    → Registered
    → (List Modifier × Text) ⊎ Untranslatable
    → Manager
    → Manager × Option RegisterError
translated b released answer (inr e) m = (m, some (untranslatable e))
translated b released answer (inl c) m = registered b answer (unregister_locked released m)

-- `Register`
unfoldable pub register : Binding → Bool → Registered → Manager → Manager × Option RegisterError
register b released answer m = translated b released answer (translate b) m
