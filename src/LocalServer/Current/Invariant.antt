-- ===== src/LocalServer/Current/Invariant.antt =====
-- What holds of a manager between two calls.
use local_dictation.Prelude.{
  Bool, true, false, List, [], ◌∷◌, some, if◌then◌else◌, ◌≡◌, refl, ap, inl, inr, All,
}
use local_dictation.Text.{is_empty, beq}
use local_dictation.Protocol.{Language}
use local_dictation.LocalServer.Manager.{
  ManagerSettings, Server, Manager, new_manager, Resolved, unresolved, resolved, server_options,
  find, delete, Result, stop_all,
}

-- A server that was started for its language with what the manager has now.
abbrev pub IsCurrent : Manager → Language × Server → Type 0
IsCurrent m e = e.1.options ≡ server_options m.settings e.0 m.python m.server_dir

-- Every server in the map is current, and there is none before the interpreter has been found.
pub record Tidy (m : Manager) : Type 0 where
  pub current : All (IsCurrent m) m.servers
  pub found : is_empty m.python ≡ true → m.servers ≡ []

-- `EnsureRuntime` answers with a path that is not empty.
abbrev pub Names : Resolved → Type 0
Names (unresolved e) = Unit
Names (resolved python dir) = is_empty python ≡ false

pub delete-All :
    (P : Language × Server → Type 0) (l : Language) (servers : List (Language × Server))
    → All P servers
    → All P (delete l servers)
unfolding delete
delete-All P l [] h = h
delete-All P l ((k, s) ∷ rest) (h, hs) = chosen (beq k l) (delete-All P l rest hs)
  where
    chosen :
        (b : Bool)
        → All P (delete l rest)
        → All P (if b then delete l rest else (k, s) ∷ delete l rest)
    chosen true r = r
    chosen false r = (h, r)

pub new-Tidy : (s : ManagerSettings) → Tidy (new_manager s)
new-Tidy s = record { current = tt; found = λ _. refl }

pub stop_all-Tidy : (m : Manager) → Tidy (stop_all m)
unfolding stop_all
stop_all-Tidy m = record { current = tt; found = λ _. refl }

pub delete-Tidy :
    (l : Language) (m : Manager) → Tidy m → Tidy (record m { servers = delete l m.servers })
unfolding delete
delete-Tidy l m t = record {
  current = delete-All (IsCurrent m) l m.servers t.current;
  found = λ e. ap (delete l) (t.found e);
}

-- What `Ensure` gives: a server of the map, current, or an error.
abbrev pub Serves : Language → Result → Type 0
Serves l (m, inl s) = (find l m.servers ≡ some s) × IsCurrent m (l, s)
Serves l (m, inr e) = Unit
