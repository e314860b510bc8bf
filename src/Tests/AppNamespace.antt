-- ===== src/Tests/AppNamespace.antt =====
-- internal/appnamespace/appnamespace.go: an instance.
use tinkercloud.Prelude.{◌≡◌, ◌↔◌, false, codes}
use tinkercloud.AppNamespace.{validate, ok, is_reserved}
use tinkercloud.AppNamespace.Grammar.{IsLabel, validate_iff}

validate_iff_example : (validate (codes "my-app") ≡ ok (codes "my-app")) ↔ (
    (codes "my-app" ≡ codes "my-app")
    × IsLabel (codes "my-app")
    × (is_reserved (codes "my-app") ≡ false))
validate_iff_example = validate_iff (codes "my-app") (codes "my-app")
