-- ===== src/Otp.antt =====
-- internal/otp/otp.go: one-time codes over the in-memory challenge store. The random ID and code are
-- arguments, `none` where the source of entropy fails; the HMAC is a parameter.
pub mod Redemption
pub mod Supersession
use tinkercloud.Prelude.{
  ℕ, ◌+◌, ◌*◌, Bool, true, false, not, ◌&&◌, ◌||◌, Option, none, some, List, [], ◌∷◌, ◌++◌, Text,
  text_eq, length, leb, ltb, ◌==◌, if◌then◌else◌,
}
use tinkercloud.Prelude.Map.{Map, lookup, insert, update_all}

pub record Challenge : Type 0 where
  pub id : Text
  pub app_id : Text
  pub email : Text
  pub code_hash : Text
  pub expires_at : ℕ
  pub attempts : ℕ
  pub max_attempts : ℕ
  pub consumed_at : Option ℕ
  pub invalidated_at : Option ℕ

pub record Message : Type 0 where
  pub app_id : Text
  pub email : Text
  pub code : Text
  pub challenge_id : Text

-- The store's map and the messages that the outbox has accepted.
pub record State : Type 0 where
  pub challenges : Map Challenge
  pub sent : List Message

-- `hash` is the HMAC of ID and code under a key; `enqueue` says whether the outbox takes a message,
-- and is `none` where there is no outbox.
pub record Service : Type 0 where
  pub key : Text
  pub ttl : ℕ
  pub max_attempts : ℕ
  pub hash : Text → Text → Text → Text
  pub enqueue : Option (Message → Bool)

abbrev pub is_none : Option ℕ → Bool
is_none none = true
is_none (some t) = false

abbrev pub ten_minutes : ℕ
ten_minutes = 600000000000

-- `MemoryStore.Create`.
unfoldable pub create : Map Challenge → Challenge → Map Challenge
create m c = insert c.id c m

abbrev pub invalidate : Text → Text → ℕ → Text → Challenge → Option Challenge
invalidate app email now id c =
    if text_eq c.app_id app
      && text_eq c.email email
      && is_none c.consumed_at
      && is_none c.invalidated_at
    then some (record c { invalidated_at = some now })
    else some c

unfoldable pub invalidate_active : Map Challenge → Text → Text → ℕ → Map Challenge
invalidate_active m app email now = update_all (invalidate app email now) m

-- The refusals of `Consume` for a challenge that is there.
unfoldable pub refused : Challenge → Text → Text → ℕ → Bool
refused c app email now =
    not (text_eq c.app_id app)
    || not (text_eq c.email email)
    || not (is_none c.consumed_at)
    || not (is_none c.invalidated_at)
    || not (ltb now c.expires_at)
    || leb c.max_attempts c.attempts

-- `fn` gives a session, or refuses, which costs an attempt. `none` is `ErrInvalid`.
unfoldable pub consume :
    {S : Type 0}
    → Map Challenge
    → Text
    → Text
    → Text
    → ℕ
    → (Challenge → Option S)
    → Map Challenge × Option S
consume m app email id now fn = elim (lookup id m) [
  | none ↦ (m, none)
  | some c ↦ if refused c app email now then (m, none) else elim (fn c) [
    | none ↦ (insert id (record c { attempts = c.attempts + 1 }) m, none)
    | some session ↦ (insert id (record c { consumed_at = some now }) m, some session)
  ]
]

unfoldable pub new_challenge : Service → Text → Text → Text → Text → ℕ → Challenge
new_challenge s app email id code now = record {
  id = id;
  app_id = app;
  email = email;
  code_hash = s.hash s.key id code;
  expires_at = now + (if s.ttl == 0 then ten_minutes else s.ttl);
  attempts = 0;
  max_attempts = if s.max_attempts == 0 then 5 else s.max_attempts;
  consumed_at = none;
  invalidated_at = none;
}

-- A message that the outbox does not take is dropped.
deliver : Service → Bool → Message → List Message → List Message
deliver s eligible m sent = elim s.enqueue [
  | none ↦ sent
  | some takes ↦ if eligible && takes m then sent ++ m ∷ [] else sent
]

-- `Request`; the Boolean is false for `ErrUnavailable`.
unfoldable pub request :
    Service → State → Text → Text → Bool → ℕ → Option Text → Option Text → State × Bool
unfolding new_challenge deliver
request s st app email eligible now none random_id = (st, false)
request s st app email eligible now (some code) none = (st, false)
request s st app email eligible now (some code) (some id) =
    if length s.key == 0 then (st, false) else (
      record {
        challenges =
            create (invalidate_active st.challenges app email now)
              (new_challenge s app email id code now);
        sent =
            deliver s eligible
              (record { app_id = app; email = email; code = code; challenge_id = id }) st.sent;
      },
      true,
    )

abbrev pub check_code :
    {S : Type 0} → Service → Text → Text → (Challenge → Option S) → Challenge → Option S
check_code s id code create_session c =
    if not (text_eq c.code_hash (s.hash s.key id code)) then none else create_session c

-- `Verify`.
unfoldable pub verify :
    {S : Type 0}
    → Service
    → Map Challenge
    → Text
    → Text
    → Text
    → Text
    → ℕ
    → (Challenge → Option S)
    → Map Challenge × Option S
verify s m app email id code now create_session =
    if length s.key == 0
    then (m, none)
    else consume m app email id now (check_code s id code create_session)
