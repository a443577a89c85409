-- ===== src/LocalServer/Manager.antt =====
-- `Manager` of client/internal/localserver/manager.go. The interpreter, the processes and what the
-- operating system says of them are answers of the outside; the log tells which servers were stopped.
use local_dictation.Prelude.{
  ℕ, Bool, ◌&&◌, List, [], ◌∷◌, ◌++◌, map, Option, none, some, if◌then◌else◌, ◌⊎◌, inl, inr,
}
use local_dictation.Prelude.Int.{ℤ}
use local_dictation.Text.{Text, is_empty, beq}
use local_dictation.Protocol.{Language, english}
use local_dictation.Settings.Config.{eqb_ℤ}
use local_dictation.Settings.Backend.{Backend, normalise}

pub record ManagerSettings : Type 0 where
  pub python_path : Text
  pub server_dir : Text
  pub model_path : Text
  pub draft_model_path : Text
  pub vad_model_path : Text
  pub state_dir : Text
  pub cpu_threads : ℤ
  pub min_speech_ms : ℤ
  pub backend : Backend
  pub korean_port : ℤ
  pub english_port : ℤ

-- `Options` of client/internal/localserver/server.go.
pub record Options : Type 0 where
  pub python_path : Text
  pub server_dir : Text
  pub model_path : Text
  pub draft_model_path : Text
  pub vad_model_path : Text
  pub language : Language
  pub port : ℤ
  pub cpu_threads : ℤ
  pub min_speech_ms : ℤ
  pub state_dir : Text
  pub backend : Backend

-- A process, by its number, and what it was started with.
pub record Server : Type 0 where
  pub id : ℕ
  pub options : Options

-- `Manager`: the map is the list of its entries.
pub record Manager : Type 0 where
  pub settings : ManagerSettings
  pub python : Text
  pub server_dir : Text
  pub servers : List (Language × Server)
  pub stopped : List ℕ

-- `NewManager`
abbrev pub new_manager : ManagerSettings → Manager
new_manager s = record { settings = s; python = []; server_dir = []; servers = []; stopped = [] }

-- What `ResolveServerDir`, `FindPython` and `EnsureRuntime` answer together.
pub data Resolved : Type 0 where
  unresolved : Text → Resolved
  resolved : Text → Text → Resolved

abbrev pub resolve : Resolved → Manager → Manager × Option Text
resolve (unresolved e) m = (m, some e)
resolve (resolved python dir) m = (record m { python = python; server_dir = dir }, none)

-- `Prepare`
unfoldable pub prepare : Resolved → Manager → Manager × Option Text
prepare r m = if is_empty m.python then resolve r m else (m, none)

-- `serverOptions`
unfoldable pub server_options : ManagerSettings → Language → Text → Text → Options
server_options s language python server_dir = record {
  python_path = python;
  server_dir = server_dir;
  model_path = s.model_path;
  draft_model_path = s.draft_model_path;
  vad_model_path = s.vad_model_path;
  language = language;
  port = if beq language english then s.english_port else s.korean_port;
  cpu_threads = s.cpu_threads;
  min_speech_ms = s.min_speech_ms;
  state_dir = s.state_dir;
  backend = s.backend;
}

-- `m.servers[language]`
unfoldable pub find : Language → List (Language × Server) → Option Server
find language [] = none
find language ((l, s) ∷ rest) =
    let found = find language rest in if beq l language then some s else found

-- `delete(m.servers, language)`
unfoldable pub delete : Language → List (Language × Server) → List (Language × Server)
delete language [] = []
delete language ((l, s) ∷ rest) =
    let kept = delete language rest in if beq l language then kept else (l, s) ∷ kept

-- `m.servers[language] = s`
abbrev pub insert : Language → Server → List (Language × Server) → List (Language × Server)
insert language s servers = (language, s) ∷ delete language servers

-- What the outside answers in `Ensure`: which processes have exited, the number of the process that
-- `Start` launches, and what `WaitReady` says.
pub record Answers : Type 0 where
  pub resolution : Resolved
  pub exited : ℕ → Bool
  pub launch : ℕ ⊎ Text
  pub ready : Option Text

abbrev pub Result : Type 0
Result = Manager × (Server ⊎ Text)

-- In `Ensure`, after `WaitReady`.
abbrev pub waited : Language → Server → Option Text → Manager → Result
waited language s none m = (record m { servers = insert language s m.servers }, inl s)
waited language s (some e) m = (record m { stopped = s.id ∷ m.stopped }, inr e)

-- In `Ensure`, where no server is running.
abbrev pub launched : Language → Answers → ℕ ⊎ Text → Manager → Result
launched language a (inr e) m = (m, inr e)
launched language a (inl id) m =
    waited language
      (record { id = id; options = server_options m.settings language m.python m.server_dir })
      a.ready m

-- In `Ensure`, after the map has been looked at.
abbrev pub looked_up : Language → Answers → Option Server → Manager → Result
looked_up language a none m = launched language a a.launch m
looked_up language a (some s) m =
    if a.exited s.id
    then launched language a a.launch (record m { servers = delete language m.servers })
    else (m, inl s)

abbrev pub prepared : Language → Answers → Manager × Option Text → Result
prepared language a (m, some e) = (m, inr e)
prepared language a (m, none) = looked_up language a (find language m.servers) m

-- `Ensure`
unfoldable pub ensure : Language → Answers → Manager → Result
ensure language a m = prepared language a (prepare a.resolution m)

-- `Running`
unfoldable pub running : Language → (ℕ → Bool) → Manager → Option Server
running language exited m = elim (find language m.servers) [
  | none ↦ none
  | some s ↦ if exited s.id then none else some s
]

-- `StopAll`
unfoldable pub stop_all : Manager → Manager
stop_all m = record m { servers = []; stopped = map (λ e. e.1.id) m.servers ++ m.stopped }

-- `a == b`
abbrev pub same_settings : ManagerSettings → ManagerSettings → Bool
same_settings a b =
    beq a.python_path b.python_path
    && beq a.server_dir b.server_dir
    && beq a.model_path b.model_path
    && beq a.draft_model_path b.draft_model_path
    && beq a.vad_model_path b.vad_model_path
    && beq a.state_dir b.state_dir
    && eqb_ℤ a.cpu_threads b.cpu_threads
    && eqb_ℤ a.min_speech_ms b.min_speech_ms
    && beq a.backend b.backend
    && eqb_ℤ a.korean_port b.korean_port
    && eqb_ℤ a.english_port b.english_port

-- In `Update`, the settings that the interpreter and the directory come from.
abbrev pub same_runtime : ManagerSettings → ManagerSettings → Bool
same_runtime a b =
    beq a.python_path b.python_path
    && beq a.server_dir b.server_dir
    && beq (normalise a.backend) (normalise b.backend)

-- `Update`
unfoldable pub update : ManagerSettings → Manager → Manager
update s m =
    let m1 = if same_runtime m.settings s then m else record m { python = []; server_dir = [] } in
    let m2 = record m1 { settings = s } in if same_settings m.settings s then m2 else stop_all m2
