-- ===== src/Tests/Kv.antt =====
-- internal/kv/kv.go: instances.
use tinkercloud.Prelude.{
  ℕ, ◌≡◌, ◌↔◌, ◌<◌, ◌≤◌, refl, arith, Bool, true, none, some, [], ◌∷◌, Text, codes, all, length,
  text_eq,
}
use tinkercloud.Prelude.Map.{Map, lookup, IsDistinct, has_key, insert, update_all}
use tinkercloud.Access.{Context, scope, create_session}
use tinkercloud.Kv.Store.{
  total_bytes, next_version, Entry, Outcome, ok, set_entry, sort_texts, entries_of,
}
use tinkercloud.Kv.Keys.{valid_key, scan_byte, double_pairs, escape_quotes, json_string}
use tinkercloud.Kv.{
  Service, entries_in, normalized_limits, set_body, valid_value, with_budget, new, set, app_of,
  default_limits,
}
use tinkercloud.Kv.Rates.{app_key, viewer_key, enter, forget, has_budget, allow}
use tinkercloud.RateLimit.Window.{drop_old, prune, events_of}
use tinkercloud.Prelude.Strings.{contains_byte}
use tinkercloud.Kv.Writes.{run, setting}
use tinkercloud.Kv.Grammar.{is_printable, valid_key_iff}
use tinkercloud.Kv.Quota.{Reach, start, next, IsBounded, Reach-IsBounded}
use tinkercloud.Kv.Isolation.{run_isolated}
use tinkercloud.Kv.Versions.{Accepted, set-Accepted}
use tinkercloud.Kv.Paging.{all_pages, keys_with, all_pages_complete}
use tinkercloud.Tests.Access.{app, context}

abbrev any_text : Text → Bool
any_text s = true

abbrev kv_context : Context
kv_context = record context { app = record app { kv_enabled = true } }

abbrev empty_service : Service
empty_service = new default_limits true

abbrev set_one : Service × Outcome Entry
set_one = set any_text any_text empty_service 5 (some kv_context) (codes "k") (codes "1") none

abbrev stored : Entry
stored = record { key = codes "k"; value = codes "1"; version = 1; updated_at = 5 }

set_works : set_one ≡ (set_one.0, ok stored)
unfolding has_key scan_byte app_key enter forget has_budget viewer_key next_version set_entry
    total_bytes entries_in normalized_limits set_body valid_value text_eq insert drop_old lookup set
    new app_of scope allow with_budget valid_key double_pairs escape_quotes json_string update_all
    prune create_session contains_byte events_of
set_works = refl

set-Accepted_example :
    Accepted any_text any_text empty_service set_one.0 5
      (some kv_context)
      (codes "k")
      (codes "1")
      none
      stored
set-Accepted_example =
    set-Accepted any_text any_text empty_service set_one.0 5 (some kv_context) (codes "k")
      (codes "1") none stored set_works

other_app : {app viewer : Text} → app_of (some kv_context) ≡ ok (app, viewer) → app ≡ codes "b" → ⊥
unfolding app_of scope
other_app h n = ground (arith, h, n)

run_isolated_example :
    lookup
      (codes "b")
      (run any_text any_text empty_service 5
        (some kv_context)
        (setting (codes "k") (codes "1") none)).apps
    ≡ lookup (codes "b") empty_service.apps
unfolding app_of scope
run_isolated_example =
    run_isolated any_text any_text empty_service 5 (some kv_context)
      (setting (codes "k") (codes "1") none) (codes "b") (λ app viewer h n. absurd (other_app h n))

reached :
    Reach any_text any_text default_limits true (
      run any_text any_text empty_service 5
        (some kv_context)
        (setting (codes "k") (codes "1") none))
reached = next 5 (some kv_context) (setting (codes "k") (codes "1") none) start

Reach-IsBounded_example :
    IsBounded (
      run any_text any_text empty_service 5
        (some kv_context)
        (setting (codes "k") (codes "1") none))
Reach-IsBounded_example = Reach-IsBounded reached

valid_key_iff_example :
    (valid_key any_text (codes "a/b") 256 ≡ true)
    ↔ (0 < length (codes "a/b"))
      × (any_text (codes "a/b") ≡ true)
      × (length (codes "a/b") ≤ 256)
      × (all is_printable (codes "a/b") ≡ true)
unfolding contains_byte
valid_key_iff_example = valid_key_iff any_text (codes "a/b") 256 refl

abbrev entry_at : ℕ → Text → Entry
entry_at t v = record { key = codes "k"; value = v; version = 1; updated_at = t }

abbrev two : Map Entry
two =
    (codes "b", record (entry_at 1 (codes "1")) { key = codes "b" })
    ∷ (codes "a", record (entry_at 1 (codes "2")) { key = codes "a" })
    ∷ []

all_pages_complete_example :
    all_pages 3 two [] [] 1 ≡ entries_of (sort_texts (keys_with [] two)) two
unfolding lookup text_eq
all_pages_complete_example =
    let d : IsDistinct two = (refl, (refl, tt)) in
    all_pages_complete 3 0 two [] d refl (omega arith)
