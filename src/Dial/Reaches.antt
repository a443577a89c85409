-- ===== src/Dial/Reaches.antt =====
-- What `Dial` connects to.
use local_dictation.Prelude.{
  true, false, List, [], ◌∷◌, none, some, if◌then◌else◌, ◌⊎◌, inl, inr, ◌≡◌,
}
use local_dictation.Text.{Text, codes, beq}
use local_dictation.Protocol.{Language}
use local_dictation.Settings.Config.{Config, mode_local, address, port_for}
use local_dictation.LocalServer.Manager.{
  Manager, Server, server_options, find, same_runtime, new_manager,
}
use local_dictation.LocalServer.Current.Invariant.{Tidy, Names}
use local_dictation.Dial.{
  Dialer, update_dialer, shutdown, manager_settings, Outside, Attempt, DialError, dial,
}
use local_dictation.Dial.Secure.{Secures}

-- The connection goes to this machine, to the server of the language, which was started with the
-- settings in force, or to the configured host and port of the language.
pub data Reaches (o : Outside) (l : Language) (c : Config) (state_dir : Text) (m : Manager)
    (a : Attempt) : Type 0 where
  this_machine :
      (s : Server)
      → beq c.mode mode_local ≡ true
      → find l m.servers ≡ some s
      → s.options ≡ server_options (manager_settings c state_dir) l m.python m.server_dir
      → a.endpoint ≡ address (codes "ws") (codes "127.0.0.1") (o.port s.id) (codes "/v1/dictation")
      → a.tls ≡ none
      → Reaches o l c state_dir m a
  remote_host :
      beq c.mode mode_local ≡ false
      → a.endpoint
        ≡ address
            (if c.remote.tls.enabled then codes "wss" else codes "ws")
            c.remote.host
            (port_for l c)
            (codes "/v1/dictation")
      → Secures o.certificates c.remote.tls a.tls
      → Reaches o l c state_dir m a

abbrev pub Dialled : Outside → Language → Config → Text → Dialer × (Attempt ⊎ DialError) → Type 0
Dialled o l c state_dir (d, inl a) = Reaches o l c state_dir d.local a
Dialled o l c state_dir (d, inr e) = Unit

pub data Request : Type 0 where
  on_dial : Language → Outside → Request
  on_settings : Config → Request
  on_shutdown : Request

-- Every interpreter that the outside finds has a path.
abbrev pub Sensible : Request → Type 0
Sensible (on_dial l o) = Names o.ensured.resolution
Sensible _ = Unit

abbrev pub serve : Request → Dialer → Dialer
serve (on_dial l o) d = (dial o l d).0
serve (on_settings c) d = update_dialer c d
serve on_shutdown d = shutdown d

abbrev pub serve_all : List Request → Dialer → Dialer
serve_all [] d = d
serve_all (r ∷ rs) d = serve_all rs (serve r d)

-- The manager has the dialer's settings, and its servers were started with its own.
record Carried (d : Dialer) : Type 0 where
  tidy : Tidy d.local
  same : d.local.settings ≡ manager_settings d.settings d.state_dir

module _ (o : Outside) (l : Language) (d : Dialer) where
  abbrev Goal : Dialer × (Attempt ⊎ DialError) → Type 0
  Goal = Dialled o l d.settings d.state_dir
