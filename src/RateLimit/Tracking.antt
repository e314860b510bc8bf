-- ===== src/RateLimit/Tracking.antt =====
-- internal/ratelimit/ratelimit.go: pruning and charging keep the buckets in step with the log.
use mathlib.Core.List.{append-nil, append_assoc}
use tinkercloud.Prelude.{
  ℕ, ◌≤◌, ◌≡◌, refl, ap, ◌∙◌, true, Option, none, some, List, [], ◌∷◌, ◌++◌, arith, Text, text_eq,
  text_eq_iff, filter, filter-append, filter-filter, if◌then◌else◌,
}
use tinkercloud.Prelude.Map.{
  Map, lookup, insert, IsDistinct, lookup-insert, lookup-update_all, insert-IsDistinct,
  update_all-IsDistinct, bind_entry,
}
use tinkercloud.RateLimit.Window.{
  drop_old, prune, events_of, events_or_nil, some_events, record_all, admit,
}
use tinkercloud.RateLimit.Log.{
  in_window, Log, times, entries, times-append, Ascends, Ascends-weaken, Ascends-snoc,
  drop_old-eq-filter, Ascends-drop_old,
}

-- The buckets agree with the log on every entry that can still count at `last` or later.
pub record Tracks (window last : ℕ) (log : Log) (buckets : Map (List ℕ)) : Type 0 where
  pub distinct : IsDistinct buckets
  pub ascending : (k : Text) → Ascends 0 (events_of k buckets) last
  pub agrees :
      (k : Text) (now : ℕ)
      → last ≤ now
      → filter (in_window now window) (events_of k buckets)
        ≡ filter (in_window now window) (times k log)

pub empty-Tracks : (window : ℕ) → Tracks window 0 [] []
unfolding events_of times lookup
empty-Tracks window = record {
  distinct = tt;
  ascending = λ k. omega arith;
  agrees = λ k now h. refl;
}

events_or_nil-prune :
    (now window : ℕ) (o : Option (List ℕ))
    → events_or_nil (bind_entry (λ es. some_events (drop_old now window es)) o)
      ≡ drop_old now window (events_or_nil o)
unfolding drop_old
events_or_nil-prune now window none = refl
events_or_nil-prune now window (some es) = ground arith

pub events_of-prune :
    (now window : ℕ) (k : Text) (buckets : Map (List ℕ))
    → IsDistinct buckets
    → events_of k (prune now window buckets) ≡ drop_old now window (events_of k buckets)
unfolding events_of prune
events_of-prune now window k buckets d =
    ap events_or_nil (lookup-update_all _ k buckets d)
    ∙ events_or_nil-prune now window (lookup k buckets)

events_of-insert :
    (k j : Text) (es : List ℕ) (buckets : Map (List ℕ))
    → events_of j (insert k es buckets) ≡ (if text_eq k j then es else events_of j buckets)
unfolding events_of
events_of-insert k j es buckets = ground (arith, lookup-insert k j es buckets)

prune-IsDistinct :
    (now window : ℕ) (buckets : Map (List ℕ))
    → IsDistinct buckets
    → IsDistinct (prune now window buckets)
unfolding prune
prune-IsDistinct now window buckets d = update_all-IsDistinct _ buckets d

-- Once pruned, a bucket is what the log has in the window.
pub events_of-prune_log :
    (window last now : ℕ) (log : Log) (buckets : Map (List ℕ)) (k : Text)
    → Tracks window last log buckets
    → last ≤ now
    → events_of k (prune now window buckets) ≡ filter (in_window now window) (times k log)
events_of-prune_log window last now log buckets k t h =
    events_of-prune now window k buckets t.distinct
    ∙ drop_old-eq-filter now window 0 (events_of k buckets) last (t.ascending k)
    ∙ t.agrees k now h

recent_later :
    (now now' window : ℕ)
    → now ≤ now'
    → (e : ℕ) → in_window now' window e ≡ true
    → in_window now window e ≡ true
recent_later now now' window h e r = ground arith

pub Tracks-prune :
    (window last now : ℕ) (log : Log) (buckets : Map (List ℕ))
    → Tracks window last log buckets
    → last ≤ now
    → Tracks window now log (prune now window buckets)
Tracks-prune window last now log buckets t h = record {
  distinct = pruned-IsDistinct;
  ascending = λ k. rw (events_of-prune now window k buckets t.distinct) (
      Ascends-drop_old now window 0 (events_of k buckets) now
        (Ascends-weaken 0 (events_of k buckets) last now (t.ascending k) h));
  agrees = λ k now' h'. rw (events_of-prune_log window last now log buckets k t h) (
      filter-filter (in_window now' window) (in_window now window) (times k log)
        (recent_later now now' window h'));
}
  where
    pruned-IsDistinct : IsDistinct (prune now window buckets)
    pruned-IsDistinct = prune-IsDistinct now window buckets t.distinct

-- One entry, in the buckets and in the log.
Tracks-insert :
    (window now : ℕ) (log : Log) (buckets : Map (List ℕ)) (k : Text)
    → Tracks window now log buckets
    → Tracks window now (log ++ (k, now) ∷ []) (insert k (events_of k buckets ++ now ∷ []) buckets)
unfolding times
Tracks-insert window now log buckets k t = record {
  distinct = insert-IsDistinct k _ buckets t.distinct;
  ascending = λ j.
      rw (events_of-insert k j (events_of k buckets ++ now ∷ []) buckets)
        (ground (arith, t.ascending j, Ascends-snoc 0 (events_of k buckets) now (t.ascending k)));
  agrees = λ j now' h.
      rw
        (
          events_of-insert k j (events_of k buckets ++ now ∷ []) buckets,
          times-append j log ((k, now) ∷ []),
        )
        (ground (
          arith,
          t.agrees j now' h,
          t.agrees k now' h,
          text_eq_iff k j,
          filter-append (in_window now' window) (events_of k buckets) (now ∷ []),
          filter-append (in_window now' window) (times j log) (now ∷ []),
          append-nil (times j log),
        ));
}

pub Tracks-record_all :
    (window now : ℕ) (keys : List (Text × ℕ)) (log : Log) (buckets : Map (List ℕ))
    → Tracks window now log buckets
    → Tracks window now (log ++ entries now keys) (record_all now keys buckets)
unfolding record_all entries
Tracks-record_all window now [] log buckets t = rw (append-nil log) t
Tracks-record_all window now ((k, limit) ∷ ks) log buckets t =
    rw (← append_assoc log ((k, now) ∷ []) (entries now ks)) (
      Tracks-record_all window now ks (log ++ (k, now) ∷ [])
        (insert k (events_of k buckets ++ now ∷ []) buckets)
        (Tracks-insert window now log buckets k t))

-- An attempt leaves the buckets of other keys to the pruning.
events_of-record_all :
    (now : ℕ) (k : Text) (keys : Map ℕ) (buckets : Map (List ℕ))
    → lookup k keys ≡ none
    → events_of k (record_all now keys buckets) ≡ events_of k buckets
unfolding record_all lookup
events_of-record_all now k [] buckets e = refl
events_of-record_all now k ((j, limit) ∷ ks) buckets e = ground (
  arith,
  events_of-record_all now k ks (insert j (events_of j buckets ++ now ∷ []) buckets),
  events_of-insert j k (events_of j buckets ++ now ∷ []) buckets,
)

pub events_of-admit :
    (now window max_keys : ℕ) (k : Text) (keys : Map ℕ) (buckets : Map (List ℕ))
    → lookup k keys ≡ none
    → events_of k (admit now window max_keys keys buckets).0
      ≡ events_of k (prune now window buckets)
unfolding admit
events_of-admit now window max_keys k keys buckets e =
    ground (arith, events_of-record_all now k keys (prune now window buckets))
