-- ===== src/Live.antt =====
-- internal/live/hub.go: the hub of live connections. A connection is the number that stands for its
-- pointer. Each operation is one step under the hub's mutex; a broadcast collects its targets in one
-- step, and closes those whose transport refuses the frame (`refuses`) afterwards. What a transport
-- was told to close stands in `closed`, newest first, with the code.
pub mod Bounds
pub mod Revocation
pub mod Subscriptions
use tinkercloud.Prelude.{
  ℕ, suc, ◌+◌, Bool, true, false, not, ◌&&◌, ◌||◌, Option, none, some, List, [], ◌∷◌, ◌++◌, Text,
  codes, text_eq, length, filter, any, leb, ltb, ◌==◌, if◌then◌else◌, map,
}
use tinkercloud.Prelude.Map.{Map, lookup, insert, delete, has_key}
use tinkercloud.Prelude.Strings.{has_prefix, contains_byte}

pub record Limits : Type 0 where
  pub connections_per_app : ℕ
  pub connections_per_viewer : ℕ
  pub subscriptions_per_connection : ℕ
  pub payload_bytes : ℕ

abbrev pub default_limits : Limits
default_limits = record {
  connections_per_app = 100;
  connections_per_viewer = 5;
  subscriptions_per_connection = 32;
  payload_bytes = 32768;
}

pub data Error : Type 0 where
  unauthorized invalid_channel limit closed_connection : Error

pub record Connection : Type 0 where
  pub id : ℕ
  pub app : Text
  pub identity : Text
  pub session : Text
  pub subscriptions : Map (Unit {0})
  pub kv_prefixes : Map (Unit {0})
  pub collections : Map (Unit {0})

pub record Hub : Type 0 where
  pub limits : Limits
  pub connections : List Connection
  pub next : ℕ
  pub closed : List (ℕ × ℕ)

unfoldable pub new : Limits → Hub
new l = record {
  limits = if l.connections_per_app == 0 then default_limits else l;
  connections = [];
  next = 0;
  closed = [];
}

unfoldable pub valid_channel : Text → Bool
valid_channel v =
    not (length v == 0)
    && leb (length v) 128
    && not (has_prefix v (codes "_tinker"))
    && not (contains_byte v 0)

-- The channel, the key prefix or the collection of a subscription.
unfoldable pub valid_prefix : Text → Bool
valid_prefix prefix = not (ltb 256 (length prefix) || contains_byte prefix 0)

abbrev alnum : ℕ → Bool
alnum c = (leb b'a' c && leb c b'z') || (leb b'0' c && leb c b'9')

-- The middle of a name, and its last byte.
unfoldable pub valid_rest : ℕ → Text → Bool
valid_rest last [] = alnum last
valid_rest last (c ∷ s) =
    let rest = valid_rest c s in if alnum last || last == b'_' || last == b'-' then rest else false

unfoldable pub valid_collection : Text → Bool
unfolding valid_rest
valid_collection [] = false
valid_collection (c ∷ s) =
    if ltb 64 (length (c ∷ s)) || not (alnum c)
    then false
    else elim s [ [] ↦ true | d ∷ t ↦ valid_rest d t ]

abbrev pub same_app : Text → Connection → Bool
same_app app c = text_eq c.app app

abbrev pub same_viewer : Text → Text → Connection → Bool
same_viewer app identity c = text_eq c.app app && text_eq c.identity identity

-- `Attach`: the scope is that of the sealed context, `none` where it has none.
unfoldable pub attach : Hub → Option (Text × Text × Text) → Bool → Hub × Option Error
attach h none has_transport = (h, some unauthorized)
attach h (some (app, identity, session)) has_transport =
    if not has_transport
    then (h, some closed_connection)
    else if leb h.limits.connections_per_app (length (filter (same_app app) h.connections))
        || leb h.limits.connections_per_viewer
            (length (filter (same_viewer app identity) h.connections))
    then (h, some limit)
    else (
      record h {
        connections =
            record {
              id = h.next;
              app = app;
              identity = identity;
              session = session;
              subscriptions = [];
              kv_prefixes = [];
              collections = [];
            }
            ∷ h.connections;
        next = suc h.next;
      },
      none,
    )

unfoldable pub find : ℕ → List Connection → Option Connection
find id [] = none
find id (c ∷ cs) = let rest = find id cs in if c.id == id then some c else rest

unfoldable pub modify : ℕ → (Connection → Connection) → List Connection → List Connection
modify id f [] = []
modify id f (c ∷ cs) = let rest = modify id f cs in if c.id == id then f c ∷ cs else c ∷ rest

abbrev pub subscribed : Connection → ℕ
subscribed c = length c.subscriptions + length c.kv_prefixes + length c.collections

-- A change of one connection that is attached.
unfoldable pub with_connection :
    Hub → ℕ → (Connection → Option Error) → (Connection → Connection) → Hub × Option Error
with_connection h id check f = elim (find id h.connections) [
  | none ↦ (h, some closed_connection)
  | some c ↦ elim (check c) [
    | some e ↦ (h, some e)
    | none ↦ (record h { connections = modify id f h.connections }, none)
  ]
]

abbrev full : Hub → Connection → Option Error
full h c = if leb h.limits.subscriptions_per_connection (subscribed c) then some limit else none

abbrev always : Connection → Option Error
always c = none

abbrev set_subscriptions : (Map (Unit {0}) → Map (Unit {0})) → Connection → Connection
set_subscriptions f c = record c { subscriptions = f c.subscriptions }

abbrev set_prefixes : (Map (Unit {0}) → Map (Unit {0})) → Connection → Connection
set_prefixes f c = record c { kv_prefixes = f c.kv_prefixes }

abbrev set_collections : (Map (Unit {0}) → Map (Unit {0})) → Connection → Connection
set_collections f c = record c { collections = f c.collections }

unfoldable pub subscribe : Hub → ℕ → Text → Hub × Option Error
subscribe h id channel =
    if not (valid_channel channel)
    then (h, some invalid_channel)
    else with_connection h id (full h) (set_subscriptions (insert channel tt))

unfoldable pub unsubscribe : Hub → ℕ → Text → Hub × Option Error
unsubscribe h id channel = with_connection h id always (set_subscriptions (delete channel))

unfoldable pub subscribe_kv : Hub → ℕ → Text → Hub × Option Error
subscribe_kv h id prefix =
    if not (valid_prefix prefix)
    then (h, some invalid_channel)
    else with_connection h id (full h) (set_prefixes (insert prefix tt))

unfoldable pub unsubscribe_kv : Hub → ℕ → Text → Hub × Option Error
unsubscribe_kv h id prefix =
    if not (valid_prefix prefix)
    then (h, some invalid_channel)
    else with_connection h id always (set_prefixes (delete prefix))

-- A collection that is subscribed already is no error, also at the limit.
abbrev full_collection : Hub → Text → Connection → Option Error
full_collection h collection c = if has_key collection c.collections then none else full h c

abbrev add_collection : Text → Map (Unit {0}) → Map (Unit {0})
add_collection collection m = if has_key collection m then m else insert collection tt m

unfoldable pub subscribe_collection : Hub → ℕ → Text → Hub × Option Error
subscribe_collection h id collection =
    if not (valid_collection collection)
    then (h, some invalid_channel)
    else with_connection h id (full_collection h collection)
        (set_collections (add_collection collection))

unfoldable pub unsubscribe_collection : Hub → ℕ → Text → Hub × Option Error
unsubscribe_collection h id collection =
    if not (valid_collection collection)
    then (h, some invalid_channel)
    else with_connection h id always (set_collections (delete collection))

unfoldable pub remove : ℕ → List Connection → List Connection
remove id cs = filter (λ c. not (c.id == id)) cs

-- `close`: a connection that has gone already is not closed again.
unfoldable pub close : ℕ → Hub → ℕ → Hub
unfolding remove
close code h id = elim (find id h.connections) [
  | none ↦ h
  | some c ↦ record h { connections = remove id h.connections; closed = (id, code) ∷ h.closed }
]

unfoldable pub close_all : ℕ → Hub → List Connection → Hub
close_all code h [] = h
close_all code h (c ∷ cs) = close_all code (close code h c.id) cs

-- The loop over the targets of a broadcast: the frame goes to each, and a slow one is closed. The
-- result has the connections that were sent to.
unfoldable pub broadcast : (ℕ → Bool) → Hub → (Connection → Bool) → Hub × List Connection
broadcast refuses h wanted =
    let targets = filter wanted h.connections in
    (close_all 1013 h (filter (λ c. refuses c.id) targets), targets)

abbrev pub hears_channel : Text → Text → Connection → Bool
hears_channel app channel c = text_eq c.app app && has_key channel c.subscriptions

abbrev pub hears_key : Text → Text → Connection → Bool
hears_key app key c = text_eq c.app app && any (λ p. has_prefix key p.0) c.kv_prefixes

abbrev pub hears_collection : Text → Text → Connection → Bool
hears_collection app collection c = text_eq c.app app && has_key collection c.collections

-- `publishFrom`: only an attached connection publishes, to its own app.
unfoldable pub publish_from : (ℕ → Bool) → Hub → ℕ → Text → (Hub × List Connection) × Option Error
publish_from refuses h sender channel = elim (find sender h.connections) [
  | none ↦ ((h, []), some closed_connection)
  | some c ↦ (broadcast refuses h (hears_channel c.app channel), none)
]

-- `Connection.Publish`; `json_valid` is `json.Valid` of the payload.
unfoldable pub publish :
    (ℕ → Bool) → Hub → ℕ → Text → Text → Text → Bool → (Hub × List Connection) × Option Error
publish refuses h sender channel event payload json_valid =
    if not (valid_channel channel)
      || length event == 0
      || ltb 128 (length event)
      || not json_valid
      || ltb h.limits.payload_bytes (length payload)
    then ((h, []), some invalid_channel)
    else publish_from refuses h sender channel

unfoldable pub publish_kv_change : (ℕ → Bool) → Hub → Text → Text → Hub × List Connection
publish_kv_change refuses h app key =
    if length app == 0 then (h, []) else broadcast refuses h (hears_key app key)

unfoldable pub publish_collection_change : (ℕ → Bool) → Hub → Text → Text → Hub × List Connection
publish_collection_change refuses h app collection =
    if length app == 0 then (h, []) else broadcast refuses h (hears_collection app collection)

abbrev pub revoked : Text → Text → Connection → Bool
revoked app session c = text_eq c.app app && (length session == 0 || text_eq c.session session)

unfoldable pub revoke : Hub → Text → Text → Hub
revoke h app session = close_all 1008 h (filter (revoked app session) h.connections)
