-- ===== src/Live/Revocation.antt =====
-- internal/live/hub.go: what closing connections leaves attached.
use tinkercloud.Prelude.{
  ℕ, ◌≡◌, refl, sym, subst, Bool, true, not, ◌||◌, none, List, [], ◌∷◌, arith, Text, filter, any,
  all, ◌==◌, ==_iff,
}
use tinkercloud.Live.{Connection, Hub, find, remove, close, close_all, revoked, revoke}

-- A connection among those to be closed, by its number.
abbrev is_listed : List Connection → Connection → Bool
is_listed ds c = any (λ d. d.id == c.id) ds

abbrev or_listed : (Connection → Bool) → List Connection → Connection → Bool
or_listed p ds c = p c || is_listed ds c

remove_absent : (id : ℕ) (cs : List Connection) → find id cs ≡ none → remove id cs ≡ cs
unfolding remove find filter
remove_absent id [] h = refl
remove_absent id (c ∷ cs) h = ground (arith, remove_absent id cs)

close-connections :
    (code : ℕ) (h : Hub) (id : ℕ) → (close code h id).connections ≡ remove id h.connections
unfolding close
close-connections code h id = ground (arith, remove_absent id h.connections)

all-or_listed-remove :
    (p : Connection → Bool) (d : Connection) (ds cs : List Connection)
    → all (or_listed p (d ∷ ds)) cs ≡ true
    → all (or_listed p ds) (remove d.id cs) ≡ true
unfolding remove filter
all-or_listed-remove p d ds [] h = refl
all-or_listed-remove p d ds (c ∷ cs) h =
    ground (arith, all-or_listed-remove p d ds cs, ==_iff c.id d.id)

all-or_listed_nil :
    (p : Connection → Bool) (cs : List Connection)
    → all (or_listed p []) cs ≡ true
    → all p cs ≡ true
all-or_listed_nil p [] h = refl
all-or_listed_nil p (c ∷ cs) h = ground (arith, all-or_listed_nil p cs)

-- Closing the listed connections leaves one only if it is not listed.
all-close_all :
    (p : Connection → Bool) (code : ℕ) (h : Hub) (ds : List Connection)
    → all (or_listed p ds) h.connections ≡ true
    → all p (close_all code h ds).connections ≡ true
unfolding close_all
all-close_all p code h [] a = all-or_listed_nil p h.connections a
all-close_all p code h (d ∷ ds) a = all-close_all p code (close code h d.id) ds (
    subst (λ cs. all (or_listed p ds) cs ≡ true) (sym (close-connections code h d.id))
      (all-or_listed-remove p d ds h.connections a))

all_weaken :
    (p q : Connection → Bool) (cs : List Connection)
    → ((c : Connection) → p c ≡ true → q c ≡ true)
    → all p cs ≡ true
    → all q cs ≡ true
all_weaken p q [] w h = refl
all_weaken p q (c ∷ cs) w h = ground (arith, all_weaken p q cs w, w c)

all-not_or_filtered :
    (p : Connection → Bool) (cs : List Connection)
    → all (or_listed (λ c. not (p c)) (filter p cs)) cs ≡ true
unfolding filter
all-not_or_filtered p [] = refl
all-not_or_filtered p (c ∷ cs) = ground (
  arith,
  all-not_or_filtered p cs,
  ==_iff c.id c.id,
  all_weaken (or_listed (λ d. not (p d)) (filter p cs))
      (or_listed (λ d. not (p d)) (c ∷ filter p cs)) cs (λ d h. ground (arith)),
)

-- After a revocation no connection of the app and session, or of the whole app where the session is
-- empty, is attached any more; this does not rest on the numbers being distinct.
pub revoke_complete :
    (h : Hub) (app session : Text)
    → all (λ c. not (revoked app session c)) (revoke h app session).connections ≡ true
unfolding revoke
revoke_complete h app session =
    all-close_all (λ c. not (revoked app session c)) 1008 h
      (filter (revoked app session) h.connections)
      (all-not_or_filtered (revoked app session) h.connections)
