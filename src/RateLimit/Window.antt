-- ===== src/RateLimit/Window.antt =====
-- internal/ratelimit/ratelimit.go: the loops over buckets that `allow` and `allowHandoff` share.
use tinkercloud.Prelude.{
  ℕ, ◌+◌, Bool, true, false, ◌&&◌, not, Option, none, some, List, [], ◌∷◌, ◌++◌, Text, length, ltb,
  leb, if◌then◌else◌,
}
use tinkercloud.Prelude.Map.{Map, lookup, insert, has_key, update_all}

-- `e.After(now.Add(-window))`.
abbrev pub is_recent : ℕ → ℕ → ℕ → Bool
is_recent now window e = ltb now (e + window)

-- The inner loop of `pruneLocked`: the events from the first recent one on.
unfoldable pub drop_old : ℕ → ℕ → List ℕ → List ℕ
drop_old now window [] = []
drop_old now window (e ∷ es) =
    let rest = drop_old now window es in if is_recent now window e then e ∷ es else rest

abbrev pub some_events : List ℕ → Option (List ℕ)
some_events [] = none
some_events (e ∷ es) = some (e ∷ es)

-- `pruneLocked`: a bucket with no event left is deleted.
unfoldable pub prune : ℕ → ℕ → Map (List ℕ) → Map (List ℕ)
unfolding drop_old
prune now window = update_all (λ k es. some_events (drop_old now window es))

-- `l.buckets[k]`, whose zero value has no event.
abbrev pub events_or_nil : Option (List ℕ) → List ℕ
events_or_nil none = []
events_or_nil (some es) = es

unfoldable pub events_of : Text → Map (List ℕ) → List ℕ
events_of k buckets = events_or_nil (lookup k buckets)

-- The first loop: each key must have room in its bucket, and a new key room in the map.
unfoldable pub has_room : ℕ → Map (List ℕ) → Text × ℕ → Bool
unfolding events_of
has_room max_keys buckets (k, limit) =
    not (not (has_key k buckets) && leb max_keys (length buckets))
    && not (leb limit (length (events_of k buckets)))

unfoldable pub all_have_room : ℕ → Map (List ℕ) → List (Text × ℕ) → Bool
unfolding has_room
all_have_room max_keys buckets [] = true
all_have_room max_keys buckets (k ∷ ks) =
    has_room max_keys buckets k && all_have_room max_keys buckets ks

-- The second loop: the attempt is entered in each bucket.
unfoldable pub record_all : ℕ → List (Text × ℕ) → Map (List ℕ) → Map (List ℕ)
unfolding events_of
record_all now [] buckets = buckets
record_all now ((k, limit) ∷ ks) buckets =
    record_all now ks (insert k (events_of k buckets ++ now ∷ []) buckets)

unfoldable pub admit : ℕ → ℕ → ℕ → List (Text × ℕ) → Map (List ℕ) → Map (List ℕ) × Bool
unfolding prune all_have_room record_all
admit now window max_keys keys buckets =
    let pruned = prune now window buckets in
    if all_have_room max_keys pruned keys
    then (record_all now keys pruned, true)
    else (pruned, false)
