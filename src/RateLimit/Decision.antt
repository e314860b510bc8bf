-- ===== src/RateLimit/Decision.antt =====
-- internal/ratelimit/ratelimit.go: what the shared part of `allow` and `allowHandoff` decides.
use tinkercloud.Prelude.{
  ℕ, suc, ◌+◌, ◌≤◌, ◌<◌, ◌≡◌, refl, ap, inl, inr, Bool, true, ◌&&◌, none, some, List, [], ◌∷◌, ◌++◌,
  arith, Text, text_eq_iff, length, filter, filter-append, length-append, length-filter-le, ltb,
  if◌then◌else◌, Bool-cases,
}
use tinkercloud.Prelude.Map.{
  Map, lookup, insert, has_key, IsDistinct, length-update_all, length-insert, has_key-insert,
}
use tinkercloud.RateLimit.Window.{
  drop_old, some_events, prune, events_of, has_room, all_have_room, record_all, admit,
}
use tinkercloud.RateLimit.Log.{
  in_window, Log, times, entries, recent_count, within_limits, times-append,
}
use tinkercloud.RateLimit.Tracking.{Tracks, Tracks-prune, Tracks-record_all, events_of-prune_log}

module _ (window last now : ℕ) (log : Log) (buckets : Map (List ℕ))
    (t : Tracks window last log buckets) (h : last ≤ now) where
  -- What an attempt adds to the log.
  pub admit-Tracks :
      (max_keys : ℕ) (keys : List (Text × ℕ))
      → let (after, ok) = admit now window max_keys keys buckets in
        Tracks window now (if ok then log ++ entries now keys else log) after
  unfolding admit
  admit-Tracks max_keys keys =
      elim (Bool-cases (all_have_room max_keys (prune now window buckets) keys)) [
        | inl e ↦ rw e (Tracks-record_all window now keys log (prune now window buckets) pruned)
        | inr e ↦ rw e pruned
      ]
    where
      pruned : Tracks window now log (prune now window buckets)
      pruned = Tracks-prune window last now log buckets t h

  -- Room in every bucket is room in every window.
  all_have_room_within :
      (max_keys : ℕ) (keys : List (Text × ℕ))
      → all_have_room max_keys (prune now window buckets) keys ≡ true
      → within_limits now window log keys ≡ true
  unfolding all_have_room within_limits recent_count has_room
  all_have_room_within max_keys [] e = refl
  all_have_room_within max_keys ((k, limit) ∷ ks) e = ground (
    arith,
    all_have_room_within max_keys ks,
    ap length (events_of-prune_log window last now log buckets k t h),
  )

  all_have_room-eq-within :
      (max_keys : ℕ) (keys : List (Text × ℕ))
      → length (prune now window buckets) < max_keys
      → all_have_room max_keys (prune now window buckets) keys ≡ within_limits now window log keys
  unfolding all_have_room within_limits recent_count has_room
  all_have_room-eq-within max_keys [] l = refl
  all_have_room-eq-within max_keys ((k, limit) ∷ ks) l = ground (
    arith,
    all_have_room-eq-within max_keys ks l,
    ap length (events_of-prune_log window last now log buckets k t h),
  )

  pub admit_within :
      (max_keys : ℕ) (keys : List (Text × ℕ))
      → (admit now window max_keys keys buckets).1 ≡ true
      → within_limits now window log keys ≡ true
  unfolding admit
  admit_within max_keys keys e = all_have_room_within max_keys keys (ground arith)

  pub admit-eq-within :
      (max_keys : ℕ) (keys : List (Text × ℕ))
      → length buckets < max_keys
      → (admit now window max_keys keys buckets).1 ≡ within_limits now window log keys
  unfolding admit prune
  admit-eq-within max_keys keys l = ground (
    arith,
    all_have_room-eq-within max_keys keys,
    length-update_all (λ k es. some_events (drop_old now window es)) buckets,
  )

length-prune_le :
    (now window : ℕ) (buckets : Map (List ℕ)) → length (prune now window buckets) ≤ length buckets
unfolding prune
length-prune_le now window buckets =
    length-update_all (λ k es. some_events (drop_old now window es)) buckets

-- An admitted attempt adds one entry to a bucket.
entries-none :
    (now : ℕ) (k : Text) (keys : Map ℕ) → lookup k keys ≡ none → times k (entries now keys) ≡ []
unfolding lookup times entries
entries-none now k [] e = refl
entries-none now k ((j, l) ∷ ks) e = ground (arith, entries-none now k ks)

length-entries_le :
    (now : ℕ) (k : Text) (keys : Map ℕ) → IsDistinct keys → length (times k (entries now keys)) ≤ 1
unfolding times entries
length-entries_le now k [] d = omega arith
length-entries_le now k ((j, l) ∷ ks) d =
    ground (arith, length-entries_le now k ks d.1, entries-none now j ks d.0, text_eq_iff j k)

within_limits-lookup :
    (now window : ℕ) (log : Log) (keys : Map ℕ) (k : Text) (limit : ℕ)
    → within_limits now window log keys ≡ true
    → lookup k keys ≡ some limit
    → recent_count now window k log < limit
unfolding within_limits lookup
within_limits-lookup now window log [] k limit w e = cc
within_limits-lookup now window log ((j, l) ∷ ks) k limit w e =
    ground (arith, within_limits-lookup now window log ks k limit, text_eq_iff j k)

-- So the limit still holds after the attempt is entered.
pub within_limits_after :
    (now window : ℕ) (log : Log) (keys : Map ℕ) (k : Text) (limit : ℕ)
    → IsDistinct keys
    → within_limits now window log keys ≡ true
    → lookup k keys ≡ some limit
    → recent_count now window k (log ++ entries now keys) ≤ limit
unfolding recent_count
within_limits_after now window log keys k limit d w e =
    rw
      (
        times-append k log (entries now keys),
        filter-append (in_window now window) (times k log) (times k (entries now keys)),
        length-append (filter (in_window now window) (times k log))
            (filter (in_window now window) (times k (entries now keys))),
      )
      (omega (
        arith,
        within_limits-lookup now window log keys k limit w e,
        length-entries_le now k keys d,
        length-filter-le (in_window now window) (times k (entries now keys)),
      ))

-- The number of buckets.
length-record_all_le :
    (now : ℕ) (keys : List (Text × ℕ)) (buckets : Map (List ℕ))
    → length (record_all now keys buckets) ≤ length buckets + length keys
unfolding record_all
length-record_all_le now [] buckets = omega arith
length-record_all_le now ((k, l) ∷ ks) buckets = ground (
  arith,
  length-record_all_le now ks (insert k (events_of k buckets ++ now ∷ []) buckets),
  length-insert k (events_of k buckets ++ now ∷ []) buckets,
)

all_known : Map (List ℕ) → List (Text × ℕ) → Bool
all_known buckets [] = true
all_known buckets ((k, l) ∷ ks) = has_key k buckets && all_known buckets ks

all_known-insert :
    (k : Text) (es : List ℕ) (buckets : Map (List ℕ)) (keys : List (Text × ℕ))
    → all_known buckets keys ≡ true
    → all_known (insert k es buckets) keys ≡ true
unfolding all_known
all_known-insert k es buckets [] a = refl
all_known-insert k es buckets ((j, l) ∷ ks) a =
    ground (arith, all_known-insert k es buckets ks, has_key-insert k j es buckets)

length-record_known :
    (now : ℕ) (keys : List (Text × ℕ)) (buckets : Map (List ℕ))
    → all_known buckets keys ≡ true
    → length (record_all now keys buckets) ≡ length buckets
unfolding record_all all_known
length-record_known now [] buckets a = refl
length-record_known now ((k, l) ∷ ks) buckets a = ground (
  arith,
  length-insert k (events_of k buckets ++ now ∷ []) buckets,
  all_known-insert k (events_of k buckets ++ now ∷ []) buckets ks,
  length-record_known now ks (insert k (events_of k buckets ++ now ∷ []) buckets),
)

full_knows :
    (max_keys : ℕ) (buckets : Map (List ℕ)) (keys : List (Text × ℕ))
    → max_keys ≤ length buckets
    → all_have_room max_keys buckets keys ≡ true
    → all_known buckets keys ≡ true
unfolding all_have_room has_room all_known
full_knows max_keys buckets [] l e = refl
full_knows max_keys buckets ((k, n) ∷ ks) l e = ground (arith, full_knows max_keys buckets ks)

length-charged :
    (max_keys slack now : ℕ) (keys : List (Text × ℕ)) (buckets : Map (List ℕ))
    → length keys ≤ slack
    → suc (length buckets) ≤ max_keys + slack
    → all_have_room max_keys buckets keys ≡ true
    → suc (length (record_all now keys buckets)) ≤ max_keys + slack
length-charged max_keys slack now keys buckets s l e =
    elim (Bool-cases (ltb (length buckets) max_keys)) [
      | inl room ↦ ground (arith, length-record_all_le now keys buckets)
      | inr full ↦
          ground (arith, full_knows max_keys buckets keys, length-record_known now keys buckets)
    ]

-- A full map takes no new key; the last free place may let in all keys of one attempt.
pub length-admit :
    (window now max_keys slack : ℕ) (keys : List (Text × ℕ)) (buckets : Map (List ℕ))
    → length keys ≤ slack
    → suc (length buckets) ≤ max_keys + slack
    → suc (length (admit now window max_keys keys buckets).0) ≤ max_keys + slack
unfolding admit
length-admit window now max_keys slack keys buckets s l = ground (
  arith,
  length-prune_le now window buckets,
  length-charged max_keys slack now keys (prune now window buckets),
)
