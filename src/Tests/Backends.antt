-- ===== src/Tests/Backends.antt =====
-- internal/persistence/kv.go: instances.
use tinkercloud.Prelude.{
  ◌≡◌, ◌<◌, refl, arith, false, none, some, List, [], ◌∷◌, codes, text_eq, ◌^◌, ◌-◌,
}
use tinkercloud.Prelude.Map.{Map, lookup}
use tinkercloud.Kv.Store.{Limits}
use tinkercloud.Kv.Tables.{
  Row, set_row, sum_sizes, refused, database, entries_in, first_chars, has_prefix_chars,
}
use tinkercloud.Kv.Backends.{
  Call, gets, sets, deletes, lists, answers_table, answers_memory, answers_table-answers_memory,
}

abbrev limits : Limits
limits = record {
  key_bytes = 8;
  value_bytes = 8;
  keys_per_app = 2;
  total_bytes_per_app = 5;
  list_limit = 10;
  request_window = 1;
  requests_per_window = 10;
  viewer_requests_per_window = 10;
  app_requests_per_window = 10;
  global_requests_per_window = 10;
  max_rate_scopes = 10;
}

abbrev calls : List Call
calls =
    sets 1 (codes "ab") (codes "1") none
    ∷ sets 2 (codes "ab") (codes "2") (some 1)
    ∷ sets 3 (codes "b") (codes "true") none
    ∷ lists (codes "a") [] 5
    ∷ deletes (codes "ab") (some 2)
    ∷ gets (codes "ab")
    ∷ []

answers_table-answers_memory_example :
    answers_table limits [] calls ≡ answers_memory limits [] calls
unfolding entries_in
answers_table-answers_memory_example =
    answers_table-answers_memory limits [] calls (omega arith) tt
      (tt, (tt, (tt, (((is_ascii, tt), omega arith), (tt, (tt, tt))))))
  where
    is_ascii : (0 < 97) × (97 < 128)
    is_ascii = (omega arith, omega arith)

-- The last version that fits is not written again.
abbrev last_version : Map Row
last_version =
    (
      codes "a",
      record { value = codes "1"; version = 2 ^ 63 - 1; size = 1; created_at = 0; updated_at = 0 },
    )
    ∷ []

write_refused : set_row limits 1 last_version (codes "a") (codes "2") none ≡ refused database
unfolding set_row lookup text_eq sum_sizes
write_refused = refl

-- A text ends at NUL for `substr`.
nul_is_missed : has_prefix_chars (b'a' ∷ 0 ∷ b'b' ∷ []) (b'a' ∷ 0 ∷ []) ≡ false
unfolding has_prefix_chars first_chars text_eq
nul_is_missed = refl

-- The key is two bytes of one character and begins with itself; as a prefix it is two characters
-- to the database.
letter_is_missed : has_prefix_chars (195 ∷ 169 ∷ b'x' ∷ []) (195 ∷ 169 ∷ []) ≡ false
unfolding has_prefix_chars first_chars text_eq
letter_is_missed = refl
