-- ===== src/Live/Subscriptions.antt =====
-- internal/live/hub.go: the limit of subscriptions, over every sequence of the hub's operations.
use tinkercloud.Prelude.{
  ℕ, ◌≤◌, ◌≡◌, refl, Bool, true, false, Option, none, some, List, [], ◌∷◌, arith, Text, length,
  filter, all, leb, ◌==◌, if◌then◌else◌, Option-cases, Bool-cases, inl, inr,
}
use tinkercloud.Prelude.Map.{Map, insert, delete, length-insert}
use tinkercloud.Live.{
  Connection, Hub, Limits, Error, new, subscribed, full, full_collection, always, set_subscriptions,
  set_prefixes, set_collections, add_collection, attach, find, modify, remove, with_connection,
  close, close_all, subscribe, unsubscribe, subscribe_kv, unsubscribe_kv, subscribe_collection,
  unsubscribe_collection, broadcast, publish_from, publish, publish_kv_change,
  publish_collection_change, revoke, hears_channel,
}
use tinkercloud.Live.Bounds.{
  Step, attaching, subscribing, unsubscribing, subscribing_kv, unsubscribing_kv,
  subscribing_collection, unsubscribing_collection, publishing, publishing_kv,
  publishing_collection, revoking, closing, Reach, start, next,
}

length-delete : {V : Type 0} (k : Text) (m : Map V) → length (delete k m) ≤ length m
unfolding delete
length-delete k [] = omega arith
length-delete k ((j, v) ∷ m) = ground (arith, length-delete k m)

-- Each connection has no more subscriptions than the limit.
abbrev within : ℕ → List Connection → Bool
within n cs = all (λ c. leb (subscribed c) n) cs

unfoldable pub IsSubscribedWithin : Hub → Type 0
IsSubscribedWithin h = within h.limits.subscriptions_per_connection h.connections ≡ true

-- A change that may be made where `check` finds nothing wrong keeps the limit.
abbrev Keeps : Hub → (Connection → Option Error) → (Connection → Connection) → Type 0
Keeps h check f =
    (c : Connection)
    → check c ≡ none
    → subscribed c ≤ h.limits.subscriptions_per_connection
    → subscribed (f c) ≤ h.limits.subscriptions_per_connection

within-modify :
    (h : Hub) (id : ℕ) (check : Connection → Option Error) (f : Connection → Connection)
    → Keeps h check f
    → (cs : List Connection) (c : Connection) → find id cs ≡ some c
    → check c ≡ none
    → within h.limits.subscriptions_per_connection cs ≡ true
    → within h.limits.subscriptions_per_connection (modify id f cs) ≡ true
unfolding modify find
within-modify h id check f k [] c e ok w = refl
within-modify h id check f k (d ∷ cs) c e ok w = elim (Bool-cases (d.id == id)) [
  | inl same ↦
      let this : d ≡ c = ground (arith, same) in
      ground (arith, same, k d (rw this ok) (ground arith))
  | inr other ↦ ground (arith, other, within-modify h id check f k cs c)
]

with_connection-IsSubscribedWithin :
    (h : Hub) (id : ℕ) (check : Connection → Option Error) (f : Connection → Connection)
    → Keeps h check f
    → IsSubscribedWithin h
    → IsSubscribedWithin (with_connection h id check f).0
unfolding with_connection IsSubscribedWithin
with_connection-IsSubscribedWithin h id check f k w = elim (Option-cases (find id h.connections)) [
  | inl e ↦ ground (arith, e)
  | inr (c, e) ↦ elim (Option-cases (check c)) [
    | inl ok ↦ ground (arith, e, ok, within-modify h id check f k h.connections c)
    | inr (x, e') ↦ ground (arith, e, e')
  ]
]

within-remove :
    (n id : ℕ) (cs : List Connection) → within n cs ≡ true → within n (remove id cs) ≡ true
unfolding remove filter
within-remove n id [] w = refl
within-remove n id (c ∷ cs) w = ground (arith, within-remove n id cs)

close-IsSubscribedWithin :
    (code : ℕ) (h : Hub) (id : ℕ) → IsSubscribedWithin h → IsSubscribedWithin (close code h id)
unfolding close IsSubscribedWithin
close-IsSubscribedWithin code h id w =
    ground (arith, within-remove h.limits.subscriptions_per_connection id h.connections)

close_all-IsSubscribedWithin :
    (code : ℕ) (h : Hub) (cs : List Connection)
    → IsSubscribedWithin h
    → IsSubscribedWithin (close_all code h cs)
unfolding close_all
close_all-IsSubscribedWithin code h [] w = w
close_all-IsSubscribedWithin code h (c ∷ cs) w =
    close_all-IsSubscribedWithin code (close code h c.id) cs
      (close-IsSubscribedWithin code h c.id w)

attach-IsSubscribedWithin :
    (h : Hub) (scope : Option (Text × Text × Text)) (transport : Bool)
    → IsSubscribedWithin h
    → IsSubscribedWithin (attach h scope transport).0
unfolding attach IsSubscribedWithin
attach-IsSubscribedWithin h none transport w = w
attach-IsSubscribedWithin h (some (a, i, s)) transport w = ground arith

add_collection-Keeps :
    (h : Hub) (collection : Text)
    → Keeps h (full_collection h collection) (set_collections (add_collection collection))
add_collection-Keeps h collection c ok w = ground (arith, length-insert collection tt c.collections)

insert-Keeps :
    (h : Hub) (k : Text)
    → Keeps h (full h) (set_subscriptions (insert k tt))
      × Keeps h (full h) (set_prefixes (insert k tt))
insert-Keeps h k = (
  λ c ok w. ground (arith, length-insert k tt c.subscriptions),
  λ c ok w. ground (arith, length-insert k tt c.kv_prefixes),
)

delete-Keeps :
    (h : Hub) (k : Text)
    → Keeps h always (set_subscriptions (delete k))
      × Keeps h always (set_prefixes (delete k))
      × Keeps h always (set_collections (delete k))
delete-Keeps h k = (
  λ c ok w. omega (arith, length-delete k c.subscriptions),
  λ c ok w. omega (arith, length-delete k c.kv_prefixes),
  λ c ok w. omega (arith, length-delete k c.collections),
)

if-IsSubscribedWithin :
    {A : Type 0} (b : Bool) (x y : Hub × A)
    → IsSubscribedWithin x.0
    → IsSubscribedWithin y.0
    → IsSubscribedWithin (if b then x else y).0
if-IsSubscribedWithin true x y u v = u
if-IsSubscribedWithin false x y u v = v

broadcast-IsSubscribedWithin :
    (refuses : ℕ → Bool) (h : Hub) (wanted : Connection → Bool)
    → IsSubscribedWithin h
    → IsSubscribedWithin (broadcast refuses h wanted).0
unfolding broadcast
broadcast-IsSubscribedWithin refuses h wanted w =
    close_all-IsSubscribedWithin 1013 h (filter (λ c. refuses c.id) (filter wanted h.connections)) w

publish-IsSubscribedWithin :
    (refuses : ℕ → Bool) (h : Hub) (id : ℕ) (channel event payload : Text) (json : Bool)
    → IsSubscribedWithin h
    → IsSubscribedWithin (publish refuses h id channel event payload json).0.0
unfolding publish publish_from IsSubscribedWithin
publish-IsSubscribedWithin refuses h id channel event payload json w =
    elim (Option-cases (find id h.connections)) [
      | inl e ↦ ground (arith, e)
      | inr (c, e) ↦
          ground (arith, e, broadcast-IsSubscribedWithin refuses h (hears_channel c.app channel) w)
    ]

Step-IsSubscribedWithin : {h k : Hub} → Step h k → IsSubscribedWithin h → IsSubscribedWithin k
unfolding subscribe unsubscribe subscribe_kv unsubscribe_kv subscribe_collection
    unsubscribe_collection publish_kv_change publish_collection_change revoke
Step-IsSubscribedWithin (attaching h scope transport) w =
    attach-IsSubscribedWithin h scope transport w
Step-IsSubscribedWithin (subscribing h id channel) w =
    if-IsSubscribedWithin _ _ _ w
      (with_connection-IsSubscribedWithin h id (full h) _ (insert-Keeps h channel).0 w)
Step-IsSubscribedWithin (unsubscribing h id channel) w =
    with_connection-IsSubscribedWithin h id always _ (delete-Keeps h channel).0 w
Step-IsSubscribedWithin (subscribing_kv h id prefix) w =
    if-IsSubscribedWithin _ _ _ w
      (with_connection-IsSubscribedWithin h id (full h) _ (insert-Keeps h prefix).1 w)
Step-IsSubscribedWithin (unsubscribing_kv h id prefix) w =
    if-IsSubscribedWithin _ _ _ w
      (with_connection-IsSubscribedWithin h id always _ (delete-Keeps h prefix).1 w)
Step-IsSubscribedWithin (subscribing_collection h id collection) w = if-IsSubscribedWithin _ _ _ w (
    with_connection-IsSubscribedWithin h id (full_collection h collection) _
      (add_collection-Keeps h collection) w)
Step-IsSubscribedWithin (unsubscribing_collection h id collection) w =
    if-IsSubscribedWithin _ _ _ w
      (with_connection-IsSubscribedWithin h id always _ (delete-Keeps h collection).2 w)
Step-IsSubscribedWithin (publishing refuses h id channel event payload json) w =
    publish-IsSubscribedWithin refuses h id channel event payload json w
Step-IsSubscribedWithin (publishing_kv refuses h app key) w =
    if-IsSubscribedWithin _ _ _ w (broadcast-IsSubscribedWithin refuses h _ w)
Step-IsSubscribedWithin (publishing_collection refuses h app collection) w =
    if-IsSubscribedWithin _ _ _ w (broadcast-IsSubscribedWithin refuses h _ w)
Step-IsSubscribedWithin (revoking h app session) w = close_all-IsSubscribedWithin 1008 h _ w
Step-IsSubscribedWithin (closing code h id) w = close-IsSubscribedWithin code h id w

-- In every hub that `New` and any sequence of operations lead to, no connection has more
-- subscriptions, to channels, key prefixes and collections together, than the limit of the hub.
Reach-IsSubscribedWithin : {l : Limits} {h : Hub} → Reach l h → IsSubscribedWithin h
unfolding new IsSubscribedWithin
Reach-IsSubscribedWithin (start l) = refl
Reach-IsSubscribedWithin (next r s) = Step-IsSubscribedWithin s (Reach-IsSubscribedWithin r)
