-- ===== src/Tests/Compatibility.antt =====
-- internal/compatibility/compatibility.go: instances.
use tinkercloud.Prelude.{◌≡◌, refl, ◌↔◌, true, codes}
use tinkercloud.Compatibility.{Version, Range, compare, contains, parse, valid_range, parse_part}
use tinkercloud.Compatibility.Order.{IsContained, contains_iff}

abbrev older : Version
older = record { major = 0; minor = 9; patch = 12 }

abbrev newer : Version
newer = record { major = 0; minor = 10; patch = 0 }

abbrev clients : Range
clients = record { min_inclusive = codes "0.1.0"; max_exclusive = codes "1.0.0" }

contains_iff_example :
    (contains clients (codes "0.10.0") ≡ true) ↔ IsContained clients (codes "0.10.0")
contains_iff_example = contains_iff clients (codes "0.10.0")

in_range : contains clients (codes "0.10.0") ≡ true
unfolding contains parse compare valid_range parse_part
in_range = refl
