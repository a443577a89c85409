-- ===== src/Singleton.antt =====
-- The lock of client/internal/singleton on systems other than Windows: `Acquire` and `Release` of
-- singleton.go and singleton_unix.go, each call of the operating system a step of its own. A file is a
-- number; `path` is the file that the lock's name stands for, `locked` the kernel's table of flocks.
pub mod Exclusive
use local_dictation.Prelude.{ℕ, suc, ◌==◌, Option, none, some, if◌then◌else◌, ◌≡◌}

-- Where a copy of the application stands: not running, between `OpenFile` and `Flock`, running, or in
-- `Release` between the unlock and the removal.
pub data Copy : Type 0 where
  outside : Copy
  opened : ℕ → Copy
  holding : ℕ → Copy
  removing : Copy

pub record System : Type 0 where
  pub path : Option ℕ
  pub fresh : ℕ
  pub copies : ℕ → Copy
  pub locked : ℕ → Option ℕ

-- Nobody runs, and there is no file.
abbrev pub first_system : System
first_system = record { path = none; fresh = 0; copies = λ p. outside; locked = λ n. none }

unfoldable pub put {ℓ} : {A : Type ℓ} → ℕ → A → (ℕ → A) → ℕ → A
put p x f q = if q == p then x else f q

-- `OpenFile` and `Flock` of `Acquire`, `Flock` with `LOCK_UN` and `Remove` of the release, and the death
-- of the process, with which the kernel gives up its locks.
pub data Event : Type 0 where
  opens locks unlocks removes dies : Event

-- In `Acquire`, `OpenFile` with `O_CREATE`.
abbrev pub open_lock : ℕ → Option ℕ → System → System
open_lock p (some n) s = record s { copies = put p (opened n) s.copies }
open_lock p none s = record s {
  path = some s.fresh;
  fresh = suc s.fresh;
  copies = put p (opened s.fresh) s.copies;
}

-- In `Acquire`, `Flock` with `LOCK_NB`: where another copy has the lock, this one ends.
abbrev pub flock : ℕ → ℕ → Option ℕ → System → System
flock p n none s = record s {
  copies = put p (holding n) s.copies;
  locked = put n (some p) s.locked;
}
flock p n (some q) s = record s { copies = put p outside s.copies }

-- What a copy does next, where it can.
unfoldable pub next_step : ℕ → Event → Copy → System → Option System
next_step p opens outside s = some (open_lock p s.path s)
next_step p locks (opened n) s = some (flock p n (s.locked n) s)
next_step p unlocks (holding n) s =
    some (record s { copies = put p removing s.copies; locked = put n none s.locked })
next_step p removes removing s = some (record s { path = none; copies = put p outside s.copies })
next_step p dies (opened n) s = some (record s { copies = put p outside s.copies })
next_step p dies (holding n) s =
    some (record s { copies = put p outside s.copies; locked = put n none s.locked })
next_step p dies removing s = some (record s { copies = put p outside s.copies })
next_step p e c s = none

-- One step of one copy.
abbrev pub step : ℕ → Event → System → Option System
step p e s = next_step p e (s.copies p) s

-- A run: steps of the copies, of the kinds that are allowed, in their order.
pub data Run (Allowed : Event → Type 0) : System → System → Type 0 where
  finished : (s : System) → Run Allowed s s
  after :
      (s t u : System) (p : ℕ) (e : Event)
      → Allowed e
      → step p e s ≡ some t
      → Run Allowed t u
      → Run Allowed s u
