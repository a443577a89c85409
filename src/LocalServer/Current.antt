-- ===== src/LocalServer/Current.antt =====
-- The servers that run are those that the settings ask for.
pub mod Invariant
pub mod Ensuring
pub mod Updating
use mathlib.Core.Path.{subst}
use local_dictation.Prelude.{
  ℕ, Bool, true, false, ◌&&◌, List, [], ◌∷◌, Option, none, some, if◌then◌else◌, ◌≡◌, ◌⊎◌, refl, sym,
  ap, ◌∙◌, inl, inr, arith, All,
}
use local_dictation.Prelude.Int.{ℤ, eq_of_parts}
use local_dictation.Text.{Text, is_empty, beq}
use local_dictation.Text.Laws.{beq_iff, beq_refl}
use local_dictation.Protocol.{Language}
use local_dictation.Settings.Config.{eqb_ℤ}
use local_dictation.Settings.Backend.{normalise}
use local_dictation.LocalServer.Manager.{
  ManagerSettings, Server, Manager, new_manager, Resolved, unresolved, resolved, resolve, prepare,
  server_options, find, delete, insert, Answers, Result, waited, launched, looked_up, prepared,
  ensure, stop_all, same_settings, same_runtime, update,
}
use local_dictation.LocalServer.Current.Invariant.{Tidy, Names, new-Tidy, stop_all-Tidy, Serves}
use local_dictation.LocalServer.Current.Ensuring.{ensure-Tidy}
use local_dictation.LocalServer.Current.Updating.{update-Tidy}

-- What is asked of a manager.
pub data Request : Type 0 where
  on_ensure : Language → Answers → Request
  on_update : ManagerSettings → Request
  on_stop_all : Request

-- Every interpreter that the outside finds has a path.
abbrev pub Sensible : Request → Type 0
Sensible (on_ensure l a) = Names a.resolution
Sensible (on_update s) = Unit
Sensible on_stop_all = Unit

unfoldable pub serve : Request → Manager → Manager
serve (on_ensure l a) m = (ensure l a m).0
serve (on_update s) m = update s m
serve on_stop_all m = stop_all m

unfoldable pub serve_all : List Request → Manager → Manager
serve_all [] m = m
serve_all (r ∷ rs) m = serve_all rs (serve r m)

serve-Tidy : (r : Request) (m : Manager) → Sensible r → Tidy m → Tidy (serve r m)
unfolding serve
serve-Tidy (on_ensure l a) m n t = (ensure-Tidy l a m n t).0
serve-Tidy (on_update s) m n t = update-Tidy s m t
serve-Tidy on_stop_all m n t = stop_all-Tidy m

serve_all-Tidy :
    (rs : List Request) (m : Manager) → All Sensible rs → Tidy m → Tidy (serve_all rs m)
unfolding serve_all
serve_all-Tidy [] m h t = t
serve_all-Tidy (r ∷ rs) m (h, hs) t = serve_all-Tidy rs (serve r m) hs (serve-Tidy r m h t)

-- Whatever a manager has been asked, one call after the other, the server that `Ensure` then returns
-- was started for that language with the settings, the interpreter and the directory that the manager
-- has now, and is the one in its map. The interpreters that are found have a path.
pub ensure-Serves :
    (s : ManagerSettings) (rs : List Request) (l : Language) (a : Answers)
    → All Sensible rs
    → Names a.resolution
    → Serves l (ensure l a (serve_all rs (new_manager s)))
ensure-Serves s rs l a h n =
    (ensure-Tidy l a _ n (serve_all-Tidy rs (new_manager s) h (new-Tidy s))).1
