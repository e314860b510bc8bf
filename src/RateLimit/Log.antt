-- ===== src/RateLimit/Log.antt =====
-- What internal/ratelimit/ratelimit.go promises, without buckets: the log of every entry that was
-- ever admitted, and how many entries of a key lie within the window before an instant.
use tinkercloud.Prelude.{
  ℕ, ◌+◌, ◌≤◌, ◌≡◌, refl, Bool, true, false, List, [], ◌∷◌, ◌++◌, arith, Text, text_eq, length,
  filter, if◌then◌else◌, ltb,
}
use tinkercloud.RateLimit.Window.{drop_old}

abbrev pub Log : Type 0
Log = List (Text × ℕ)

unfoldable pub times : Text → Log → List ℕ
times k [] = []
times k ((j, t) ∷ log) = let rest = times k log in if text_eq j k then t ∷ rest else rest

-- The entries that one admitted attempt adds.
unfoldable pub entries : ℕ → List (Text × ℕ) → Log
entries now [] = []
entries now ((k, limit) ∷ ks) = (k, now) ∷ entries now ks

-- Within the window before `now`: later than its far edge.
abbrev pub in_window : ℕ → ℕ → ℕ → Bool
in_window now window t = ltb now (t + window)

unfoldable pub recent_count : ℕ → ℕ → Text → Log → ℕ
recent_count now window k log = length (filter (in_window now window) (times k log))

-- Each key of the attempt has been entered fewer than its limit of times within the window.
unfoldable pub within_limits : ℕ → ℕ → Log → List (Text × ℕ) → Bool
within_limits now window log [] = true
within_limits now window log ((k, limit) ∷ ks) =
    let rest = within_limits now window log ks in
    if ltb (recent_count now window k log) limit then rest else false

pub times-append : (k : Text) (log more : Log) → times k (log ++ more) ≡ times k log ++ times k more
unfolding times
times-append k [] more = refl
times-append k ((j, t) ∷ log) more = ground (arith, times-append k log more)

-- A list of instants that rises from `lo` and ends at or before `last`.
abbrev pub Ascends : ℕ → List ℕ → ℕ → Type 0
Ascends lo [] last = lo ≤ last
Ascends lo (e ∷ es) last = (lo ≤ e) × Ascends e es last

pub Ascends-weaken :
    (lo : ℕ) (es : List ℕ) (last now : ℕ) → Ascends lo es last → last ≤ now → Ascends lo es now
Ascends-weaken lo [] last now a h = omega arith
Ascends-weaken lo (e ∷ es) last now a h = (a.0, Ascends-weaken e es last now a.1 h)

pub Ascends-snoc :
    (lo : ℕ) (es : List ℕ) (now : ℕ) → Ascends lo es now → Ascends lo (es ++ now ∷ []) now
Ascends-snoc lo [] now a = omega arith
Ascends-snoc lo (e ∷ es) now a = (a.0, Ascends-snoc e es now a.1)

Ascends-lower :
    (lo lo' : ℕ) (es : List ℕ) (last : ℕ) → Ascends lo es last → lo' ≤ lo → Ascends lo' es last
Ascends-lower lo lo' [] last a h = omega arith
Ascends-lower lo lo' (e ∷ es) last a h = (omega arith, a.1)

filter-recent_all :
    (now window lo : ℕ) (es : List ℕ) (last : ℕ)
    → Ascends lo es last
    → in_window now window lo ≡ true
    → filter (in_window now window) es ≡ es
unfolding filter
filter-recent_all now window lo [] last a h = refl
filter-recent_all now window lo (e ∷ es) last a h =
    ground (arith, filter-recent_all now window e es last a.1)

-- On a rising list the source's loop is a filter.
pub drop_old-eq-filter :
    (now window lo : ℕ) (es : List ℕ) (last : ℕ)
    → Ascends lo es last
    → drop_old now window es ≡ filter (in_window now window) es
unfolding drop_old filter
drop_old-eq-filter now window lo [] last a = refl
drop_old-eq-filter now window lo (e ∷ es) last a =
    ground (
      arith,
      drop_old-eq-filter now window e es last a.1,
      filter-recent_all now window e es last a.1,
    )

pub Ascends-drop_old :
    (now window lo : ℕ) (es : List ℕ) (last : ℕ)
    → Ascends lo es last
    → Ascends lo (drop_old now window es) last
unfolding drop_old
Ascends-drop_old now window lo [] last a = a
Ascends-drop_old now window lo (e ∷ es) last a = ground (
  arith,
  Ascends-drop_old now window e es last a.1,
  Ascends-lower e lo (drop_old now window es) last,
)
