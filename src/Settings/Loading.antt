-- ===== src/Settings/Loading.antt =====
-- What a loaded configuration holds, whatever the file.
use local_dictation.Prelude.{false, ◌≡◌, refl, arith}
use local_dictation.Prelude.Int.{pos}
use local_dictation.Text.{Text, is_empty}
use local_dictation.Settings.Config.{Config, default, migrate, eqb_ℤ}

-- The fields that `migrate` fills in are set.
pub record Filled (c : Config) : Type 0 where
  pub version : eqb_ℤ c.version (pos 0) ≡ false
  pub mode : is_empty c.mode ≡ false
  pub language : is_empty c.language ≡ false
  pub key : is_empty c.hotkey.key ≡ false

default-Filled : (m : Text) → Filled (default m)
unfolding is_empty
default-Filled m = record { version = refl; mode = refl; language = refl; key = refl }

migrate-Filled : (c : Config) → Filled (migrate c)
unfolding migrate is_empty
migrate-Filled c = record {
  version = ground arith;
  mode = ground arith;
  language = ground arith;
  key = ground arith;
}

-- Where the fields are set, there is nothing to fill in.
migrate-same : (c : Config) → Filled c → migrate c ≡ c
unfolding migrate
migrate-same c f = ground (arith, f.version, f.mode, f.language, f.key)

-- `migrate` leaves alone what it does not fill in, so doing it twice is doing it once.
pub migrate_idempotent : (c : Config) → migrate (migrate c) ≡ migrate c
migrate_idempotent c = migrate-same (migrate c) (migrate-Filled c)
