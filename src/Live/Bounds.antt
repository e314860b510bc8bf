-- ===== src/Live/Bounds.antt =====
-- internal/live/hub.go: the limits of `Attach`, over every sequence of the hub's operations.
use tinkercloud.Prelude.{
  ℕ, ◌∙◌, ◌≤◌, ◌≡◌, refl, ap, Bool, true, false, ◌&&◌, Option, none, some, List, [], ◌∷◌, arith,
  Text, text_eq, text_eq_iff, length, filter, if◌then◌else◌,
}
use tinkercloud.Live.{
  Connection, Hub, Limits, Error, new, same_app, same_viewer, attach, find, modify, remove,
  with_connection, close, close_all, subscribe, unsubscribe, subscribe_kv, unsubscribe_kv,
  subscribe_collection, unsubscribe_collection, broadcast, publish_from, publish, publish_kv_change,
  publish_collection_change, revoke, hears_channel,
}

-- The hub's operations, in any order; whatever a publication's frames do, `refuses` says.
pub data Step : Hub → Hub → Type 0 where
  attaching :
      (h : Hub) (scope : Option (Text × Text × Text)) (transport : Bool)
      → Step h (attach h scope transport).0
  subscribing : (h : Hub) (id : ℕ) (channel : Text) → Step h (subscribe h id channel).0
  unsubscribing : (h : Hub) (id : ℕ) (channel : Text) → Step h (unsubscribe h id channel).0
  subscribing_kv : (h : Hub) (id : ℕ) (prefix : Text) → Step h (subscribe_kv h id prefix).0
  unsubscribing_kv : (h : Hub) (id : ℕ) (prefix : Text) → Step h (unsubscribe_kv h id prefix).0
  subscribing_collection :
      (h : Hub) (id : ℕ) (collection : Text) → Step h (subscribe_collection h id collection).0
  unsubscribing_collection :
      (h : Hub) (id : ℕ) (collection : Text) → Step h (unsubscribe_collection h id collection).0
  publishing :
      (refuses : ℕ → Bool) (h : Hub) (id : ℕ) (channel event payload : Text) (json : Bool)
      → Step h (publish refuses h id channel event payload json).0.0
  publishing_kv :
      (refuses : ℕ → Bool) (h : Hub) (app key : Text)
      → Step h (publish_kv_change refuses h app key).0
  publishing_collection :
      (refuses : ℕ → Bool) (h : Hub) (app collection : Text)
      → Step h (publish_collection_change refuses h app collection).0
  revoking : (h : Hub) (app session : Text) → Step h (revoke h app session)
  closing : (code : ℕ) (h : Hub) (id : ℕ) → Step h (close code h id)

pub data Reach : Limits → Hub → Type 0 where
  start : (l : Limits) → Reach l (new l)
  next : {l : Limits} {h k : Hub} → Reach l h → Step h k → Reach l k

-- How many connections a test counts.
abbrev count : (Connection → Bool) → Hub → ℕ
count p h = length (filter p h.connections)

-- What `Attach` limits.
pub record IsWithin (h : Hub) : Type 0 where
  pub per_app : (app : Text) → count (same_app app) h ≤ h.limits.connections_per_app
  pub per_viewer :
      (app identity : Text) → count (same_viewer app identity) h ≤ h.limits.connections_per_viewer

-- A test of a connection that only reads whom it belongs to.
abbrev owned : (Text → Text → Bool) → Connection → Bool
owned p c = p c.app c.identity

-- The same limits, and of no owner more connections.
record Shrinks (h k : Hub) : Type 0 where
  limits : k.limits ≡ h.limits
  fewer : (p : Text → Text → Bool) → count (owned p) k ≤ count (owned p) h

Shrinks-IsWithin : (h k : Hub) → Shrinks h k → IsWithin h → IsWithin k
Shrinks-IsWithin h k s w = record {
  per_app = λ app. omega (
    arith,
    s.fewer (λ a i. text_eq a app),
    w.per_app app,
    ap (λ l. l.connections_per_app) s.limits,
  );
  per_viewer = λ app identity. omega (
    arith,
    s.fewer (λ a i. text_eq a app && text_eq i identity),
    w.per_viewer app identity,
    ap (λ l. l.connections_per_viewer) s.limits,
  );
}

Shrinks-refl : (h : Hub) → Shrinks h h
Shrinks-refl h = record { limits = refl; fewer = λ p. omega arith }

modify-count :
    (p : Text → Text → Bool) (id : ℕ) (f : Connection → Connection) (cs : List Connection)
    → ((c : Connection) → p (f c).app (f c).identity ≡ p c.app c.identity)
    → length (filter (owned p) (modify id f cs)) ≡ length (filter (owned p) cs)
unfolding modify filter
modify-count p id f [] a = refl
modify-count p id f (c ∷ cs) a = ground (arith, modify-count p id f cs a, a c)

remove-count :
    (p : Text → Text → Bool) (id : ℕ) (cs : List Connection)
    → length (filter (owned p) (remove id cs)) ≤ length (filter (owned p) cs)
unfolding remove filter
remove-count p id [] = omega arith
remove-count p id (c ∷ cs) = ground (arith, remove-count p id cs)

with_connection-Shrinks :
    (h : Hub) (id : ℕ) (check : Connection → Option Error) (f : Connection → Connection)
    → ((p : Text → Text → Bool) (c : Connection) → p (f c).app (f c).identity ≡ p c.app c.identity)
    → Shrinks h (with_connection h id check f).0
unfolding with_connection
with_connection-Shrinks h id check f a = record {
  limits = ground arith;
  fewer = λ p. ground (arith, modify-count p id f h.connections (a p));
}

close-Shrinks : (code : ℕ) (h : Hub) (id : ℕ) → Shrinks h (close code h id)
unfolding close
close-Shrinks code h id = record {
  limits = ground arith;
  fewer = λ p. ground (arith, remove-count p id h.connections);
}

close_all-Shrinks : (code : ℕ) (h : Hub) (cs : List Connection) → Shrinks h (close_all code h cs)
unfolding close_all
close_all-Shrinks code h [] = Shrinks-refl h
close_all-Shrinks code h (c ∷ cs) =
    let s = close-Shrinks code h c.id in
    let t = close_all-Shrinks code (close code h c.id) cs in
    record { limits = t.limits ∙ s.limits; fewer = λ p. omega (arith, s.fewer p, t.fewer p) }

attach-IsWithin :
    (h : Hub) (scope : Option (Text × Text × Text)) (transport : Bool)
    → IsWithin h
    → IsWithin (attach h scope transport).0
unfolding attach filter
attach-IsWithin h none transport w = w
attach-IsWithin h (some (a, i, s)) transport w = record {
  per_app = λ app. ground (arith, w.per_app app, text_eq_iff a app);
  per_viewer = λ app identity.
      ground (arith, w.per_viewer app identity, text_eq_iff a app, text_eq_iff i identity);
}

broadcast-IsWithin :
    (refuses : ℕ → Bool) (h : Hub) (wanted : Connection → Bool)
    → IsWithin h
    → IsWithin (broadcast refuses h wanted).0
unfolding broadcast
broadcast-IsWithin refuses h wanted =
    let slow = filter (λ c. refuses c.id) (filter wanted h.connections) in
    Shrinks-IsWithin h (close_all 1013 h slow) (close_all-Shrinks 1013 h slow)

with_connection-IsWithin :
    (h : Hub) (id : ℕ) (check : Connection → Option Error) (f : Connection → Connection)
    → ((p : Text → Text → Bool) (c : Connection) → p (f c).app (f c).identity ≡ p c.app c.identity)
    → IsWithin h
    → IsWithin (with_connection h id check f).0
with_connection-IsWithin h id check f a =
    Shrinks-IsWithin h (with_connection h id check f).0 (with_connection-Shrinks h id check f a)

if-IsWithin :
    {A : Type 0} (b : Bool) (x y : Hub × A)
    → IsWithin x.0
    → IsWithin y.0
    → IsWithin (if b then x else y).0
if-IsWithin true x y u v = u
if-IsWithin false x y u v = v

ifs-IsWithin :
    {A B : Type 0} (b : Bool) (x y : (Hub × A) × B)
    → IsWithin x.0.0
    → IsWithin y.0.0
    → IsWithin (if b then x else y).0.0
ifs-IsWithin true x y u v = u
ifs-IsWithin false x y u v = v

publish_from-IsWithin :
    (refuses : ℕ → Bool) (h : Hub) (id : ℕ) (channel : Text)
    → IsWithin h
    → IsWithin (publish_from refuses h id channel).0.0
unfolding publish_from
publish_from-IsWithin refuses h id channel w =
    elim (find id h.connections)
      as (λ o.
        IsWithin
          (elim o as (λ x. (Hub × List Connection) × Option Error) [
            | none ↦ ((h, []), some Error.closed_connection)
            | some c ↦ (broadcast refuses h (hears_channel c.app channel), none)
          ]).0.0) [ none ↦ w | some c ↦ broadcast-IsWithin refuses h _ w ]

Step-IsWithin : {h k : Hub} → Step h k → IsWithin h → IsWithin k
unfolding subscribe unsubscribe subscribe_kv unsubscribe_kv subscribe_collection
    unsubscribe_collection publish publish_from publish_kv_change publish_collection_change revoke
Step-IsWithin (attaching h scope transport) w = attach-IsWithin h scope transport w
Step-IsWithin (subscribing h id channel) w =
    if-IsWithin _ _ _ w (with_connection-IsWithin h id _ _ (λ p c. refl) w)
Step-IsWithin (unsubscribing h id channel) w = with_connection-IsWithin h id _ _ (λ p c. refl) w
Step-IsWithin (subscribing_kv h id prefix) w =
    if-IsWithin _ _ _ w (with_connection-IsWithin h id _ _ (λ p c. refl) w)
Step-IsWithin (unsubscribing_kv h id prefix) w =
    if-IsWithin _ _ _ w (with_connection-IsWithin h id _ _ (λ p c. refl) w)
Step-IsWithin (subscribing_collection h id collection) w =
    if-IsWithin _ _ _ w (with_connection-IsWithin h id _ _ (λ p c. refl) w)
Step-IsWithin (unsubscribing_collection h id collection) w =
    if-IsWithin _ _ _ w (with_connection-IsWithin h id _ _ (λ p c. refl) w)
Step-IsWithin (publishing refuses h id channel event payload json) w =
    ifs-IsWithin _ _ _ w (publish_from-IsWithin refuses h id channel w)
Step-IsWithin (publishing_kv refuses h app key) w =
    if-IsWithin _ _ _ w (broadcast-IsWithin refuses h _ w)
Step-IsWithin (publishing_collection refuses h app collection) w =
    if-IsWithin _ _ _ w (broadcast-IsWithin refuses h _ w)
Step-IsWithin (revoking h app session) w = Shrinks-IsWithin h _ (close_all-Shrinks 1008 h _) w
Step-IsWithin (closing code h id) w = Shrinks-IsWithin h _ (close-Shrinks code h id) w

-- In every hub that `NewHub` and any sequence of operations lead to, no app and no viewer of an app
-- has more attached connections than the limits of the hub allow.
pub Reach-IsWithin : {l : Limits} {h : Hub} → Reach l h → IsWithin h
unfolding new filter
Reach-IsWithin (start l) = record {
  per_app = λ app. omega arith;
  per_viewer = λ app i. omega arith;
}
Reach-IsWithin (next r s) = Step-IsWithin s (Reach-IsWithin r)
