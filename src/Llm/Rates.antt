-- ===== src/Llm/Rates.antt =====
-- internal/llm/llm.go: how often a viewer and an app may call.
use tinkercloud.Prelude.{
  ℕ, ◌+◌, Bool, false, ◌||◌, Option, none, some, List, [], ◌∷◌, ◌++◌, Text, codes, length, ltb, leb,
  ◌==◌, if◌then◌else◌,
}
use tinkercloud.Prelude.Map.{Map, lookup, insert, delete, update_all}
use tinkercloud.Llm.{Limits, absolute_limits}

pub record Mark : Type 0 where
  pub at : ℕ
  pub id : ℕ

pub record Service : Type 0 where
  pub rates : Map (List Mark)
  pub rate_seq : ℕ

-- `recent`, of marks that came no more than `window` before.
unfoldable pub recent : ℕ → ℕ → List Mark → List Mark
recent now window [] = []
recent now window (m ∷ ms) =
    let rest = recent now window ms in if leb (m.at + window) now then rest else m ∷ ms

abbrev pub keep_recent : ℕ → Text → List Mark → Option (List Mark)
keep_recent now key ms = elim (recent now absolute_limits.rate_window ms) [
  | [] ↦ none
  | m ∷ rest ↦ some (m ∷ rest)
]

-- `pruneRatesLocked`.
unfoldable pub prune_rates : ℕ → Map (List Mark) → Map (List Mark)
unfolding update_all recent
prune_rates now m = update_all (keep_recent now) m

-- A read of a key that is missing gives no marks.
unfoldable pub marks : Text → Map (List Mark) → List Mark
unfolding lookup
marks key m = elim (lookup key m) [ none ↦ [] | some ms ↦ ms ]

abbrev pub viewer_key : Text → Text → Text
viewer_key app viewer = codes "viewer" ++ (0 ∷ app) ++ (0 ∷ viewer)

abbrev pub app_key : Text → Text
app_key app = codes "app" ++ (0 ∷ app)

abbrev pub max_keys : ℕ
max_keys = 2048

unfoldable pub refresh_key : ℕ → ℕ → Text → Map (List Mark) → Map (List Mark)
unfolding marks recent insert
refresh_key now window key m = insert key (recent now window (marks key m)) m

-- The marks as they are when the limits are compared.
unfoldable pub refreshed : Limits → ℕ → Text → Text → Map (List Mark) → Map (List Mark)
unfolding prune_rates refresh_key
refreshed l now vk ak m =
    refresh_key now l.rate_window ak (refresh_key now l.rate_window vk (prune_rates now m))

unfoldable pub new_keys : Text → Text → Map (List Mark) → ℕ
unfolding marks
new_keys vk ak m =
    (if length (marks vk m) == 0 then 1 else 0) + (if length (marks ak m) == 0 then 1 else 0)

unfoldable pub add_mark : Mark → Text → Map (List Mark) → Map (List Mark)
unfolding marks insert
add_mark mark key m = insert key (marks key m ++ mark ∷ []) m

pub data Reserved : Type 0 where
  unavailable limited : Reserved
  permit : Mark → Reserved

-- `reserveRate`; the sequence number does not wrap around.
unfoldable pub reserve_rate : Limits → Text → Text → ℕ → Service → Service × Reserved
unfolding refreshed marks new_keys add_mark
reserve_rate l app viewer now s =
    let vk = viewer_key app viewer in
    let ak = app_key app in
    let m = refreshed l now vk ak s.rates in
    let mark : Mark = record { at = now; id = s.rate_seq + 1 } in
    if l.rate_window == 0 || l.viewer_requests == 0 || l.app_requests == 0
    then (s, unavailable)
    else if leb l.viewer_requests (length (marks vk m)) || leb l.app_requests (length (marks ak m))
    then (record s { rates = m }, limited)
    else if ltb max_keys (length m + new_keys vk ak m)
    then (record s { rates = m }, limited)
    else (
      record { rates = add_mark mark ak (add_mark mark vk m); rate_seq = s.rate_seq + 1 },
      permit mark,
    )

unfoldable pub has_mark : ℕ → List Mark → Bool
has_mark id [] = false
has_mark id (m ∷ ms) = let rest = has_mark id ms in m.id == id || rest

-- The loop of `Release`, from the end: the last mark of the ID goes.
unfoldable pub remove_mark : ℕ → List Mark → List Mark
unfolding has_mark
remove_mark id [] = []
remove_mark id (m ∷ ms) =
    let rest = remove_mark id ms in
    if has_mark id ms then m ∷ rest else if m.id == id then ms else m ∷ ms

unfoldable pub release_key : ℕ → Text → Map (List Mark) → Map (List Mark)
unfolding marks remove_mark insert delete
release_key id key m = elim (remove_mark id (marks key m)) [
  | [] ↦ delete key m
  | e ∷ rest ↦ insert key (e ∷ rest) m
]

-- `Release`, of a permit that has not been released.
unfoldable pub release : Text → Text → Mark → Service → Service
unfolding release_key
release app viewer mark s = record s {
  rates = release_key mark.id (app_key app) (release_key mark.id (viewer_key app viewer) s.rates);
}
