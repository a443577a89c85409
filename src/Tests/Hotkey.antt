-- ===== src/Tests/Hotkey.antt =====
-- Two registrations and one that the operating system refuses, which does not release the one before.
use local_dictation.Prelude.{List, true, false, [], ◌∷◌, inl, inr}
use local_dictation.Text.{codes}
use local_dictation.Hotkey.Keys.{Binding}
use local_dictation.Hotkey.Single.{Call, register_call, Single}

abbrev control_m : Binding
control_m = record { modifiers = codes "Ctrl" ∷ codes "Shift" ∷ []; key = codes "m" }

abbrev calls : List Call
calls =
    register_call control_m true (inl 1)
    ∷ register_call control_m false (inr (codes "in use", false))
    ∷ register_call control_m true (inl 2)
    ∷ []
