-- ===== src/Tests/Update.antt =====
-- Versions.
use local_dictation.Prelude.{true, ◌≡◌, ◌↔◌}
use local_dictation.Text.{codes}
use local_dictation.Update.Version.{is_newer}
use local_dictation.Update.Order.{Above, numbers_of, is_newer_iff}

is_newer_iff_example :
    (is_newer (codes "v1.10.0") (codes "1.9.2-rc1") ≡ true)
    ↔ Above (numbers_of (codes "v1.10.0")) (numbers_of (codes "1.9.2-rc1"))
is_newer_iff_example = is_newer_iff (codes "v1.10.0") (codes "1.9.2-rc1")
