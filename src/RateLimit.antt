-- ===== src/RateLimit.antt =====
-- internal/ratelimit/ratelimit.go: the bounded rolling-window limiter of the public login
-- endpoints. Times are nanoseconds; `e.After(now.Add(-w))` is written `now < e + w`, so that no
-- instant has to lie below zero. A policy's numbers are natural: a negative one is refused by
-- `New` in the source and cannot be written here. The nil limiter, which lets
-- all pass, is left out.
pub mod Window
pub mod Log
pub mod Tracking
pub mod Decision
pub mod Laws
pub mod Guarantees
pub mod Flaws
pub mod Transactions
use tinkercloud.Prelude.{
  ℕ, suc, ◌+◌, ◌*◌, Bool, true, false, not, ◌&&◌, ◌||◌, Option, none, some, List, [], ◌∷◌, ◌++◌,
  Text, codes, text_eq, length, all, ltb, leb, ◌==◌, if◌then◌else◌,
}
use tinkercloud.Prelude.Map.{Map, lookup, insert, delete, update_all, has_key}
use tinkercloud.Prelude.Strings.{to_lower, trim_space}
use tinkercloud.Identity.{normalize}
use Window.{admit}

abbrev pub second : ℕ
second = 1000000000

abbrev pub minute : ℕ
minute = 60000000000

abbrev pub hour : ℕ
hour = 3600000000000

-- A kind is a string; the two that have a policy are named.
abbrev pub Kind : Type 0
Kind = Text

abbrev pub otp_request : Kind
otp_request = codes "otp_request"

abbrev pub otp_verify : Kind
otp_verify = codes "otp_verify"

pub record Policy : Type 0 where
  pub window : ℕ
  pub per_ip : ℕ
  pub per_fingerprint : ℕ
  pub per_email : ℕ
  pub per_app : ℕ
  pub global : ℕ

pub record HandoffPolicy : Type 0 where
  pub window : ℕ
  pub per_ip : ℕ
  pub per_fingerprint : ℕ
  pub per_app : ℕ
  pub global : ℕ

pub record Config : Type 0 where
  pub request : Policy
  pub verify : Policy
  pub handoff : HandoffPolicy
  pub max_keys : ℕ

abbrev pub default_config : Config
default_config = record {
  request = record {
    window = 10 * minute;
    per_ip = 10;
    per_fingerprint = 10;
    per_email = 3;
    per_app = 100;
    global = 1000;
  };
  verify = record {
    window = 10 * minute;
    per_ip = 20;
    per_fingerprint = 20;
    per_email = 10;
    per_app = 200;
    global = 2000;
  };
  handoff = record {
    window = 10 * minute;
    per_ip = 30;
    per_fingerprint = 30;
    per_app = 100;
    global = 1000;
  };
  max_keys = 10000;
}

pub record Binding : Type 0 where
  pub email_digest : Text
  pub fingerprint_digest : Text
  pub expires_at : ℕ

pub record Limiter : Type 0 where
  pub config : Config
  pub buckets : Map (List ℕ)
  pub transactions : Map Binding

-- What the limiter takes from the host: the HMAC of a text under the limiter's key in hex,
-- `net.SplitHostPort` (the host), and whether `net.ParseIP` accepts a text.
pub record Env : Type 0 where
  pub digest : Text → Text
  pub split_host_port : Text → Option Text
  pub is_ip : Text → Bool

unfoldable pub fingerprint_limit : Policy → ℕ
fingerprint_limit p = if p.per_fingerprint == 0 then p.per_ip else p.per_fingerprint

handoff_from_request : Policy → HandoffPolicy
unfolding fingerprint_limit
handoff_from_request p = record {
  window = p.window;
  per_ip = p.per_ip;
  per_fingerprint = fingerprint_limit p;
  per_app = p.per_app;
  global = p.global;
}

zero_handoff_policy : HandoffPolicy → Bool
zero_handoff_policy p =
    p.window == 0 && p.per_ip == 0 && p.per_fingerprint == 0 && p.per_app == 0 && p.global == 0

abbrev in_budget : ℕ → Bool
in_budget n = not (ltb n 1 || ltb 1000000 n)

unfoldable pub valid_policy : Policy → Bool
valid_policy p =
    if ltb p.window second || ltb hour p.window
    then false
    else if all in_budget (p.per_ip ∷ p.per_email ∷ p.per_app ∷ p.global ∷ [])
    then p.per_fingerprint == 0 || in_budget p.per_fingerprint
    else false

unfoldable pub valid_handoff_policy : HandoffPolicy → Bool
valid_handoff_policy p =
    if ltb p.window second || ltb hour p.window
    then false
    else if all in_budget (p.per_ip ∷ p.per_app ∷ p.global ∷ [])
    then leb 1 p.per_fingerprint && leb p.per_fingerprint 1000000
    else false

-- `New` with the handoff policy that older configurations leave out.
unfoldable pub with_handoff : Config → Config
unfolding zero_handoff_policy handoff_from_request
with_handoff cfg =
    if zero_handoff_policy cfg.handoff
    then record cfg { handoff = handoff_from_request cfg.request }
    else cfg

unfoldable pub new : Text → Config → Option Limiter
new key cfg =
    let c = with_handoff cfg in
    if length key == 0
    then none
    else if not (valid_policy c.request)
        || not (valid_policy c.verify)
        || not (valid_handoff_policy c.handoff)
        || ltb c.max_keys 5
        || ltb 100000 c.max_keys
    then none
    else some (record { config = c; buckets = []; transactions = [] })

unfoldable pub policy : Limiter → Kind → Option Policy
policy l kind =
    if text_eq kind otp_request
    then some l.config.request
    else if text_eq kind otp_verify
    then some l.config.verify
    else none

unfoldable pub remote_ip : Env → Text → Text
remote_ip env remote = elim (env.split_host_port remote) [
  | some host ↦
      if env.is_ip host then host else if env.is_ip remote then remote else codes "invalid"
  | none ↦ if env.is_ip remote then remote else codes "invalid"
]

unfoldable pub normalized_or_opaque : Text → Text
normalized_or_opaque email = elim (normalize email) [
  | some e ↦ e
  | none ↦ codes "invalid:" ++ trim_space (to_lower email)
]

unfoldable pub safe_app : Text → Text
safe_app app = let a = trim_space (to_lower app) in if length a == 0 then codes "invalid" else a

abbrev expire_binding : ℕ → Text → Binding → Option Binding
expire_binding now tx b = if ltb now b.expires_at then some b else none

unfoldable pub prune_transactions : ℕ → Map Binding → Map Binding
prune_transactions now = update_all (expire_binding now)

-- The five buckets of an attempt, each with its limit, in the order of the source.
unfoldable pub budgets : Env → Policy → Kind → Text → Text → Text → Text → List (Text × ℕ)
unfolding remote_ip fingerprint_limit
budgets env p kind remote_addr fingerprint_digest email_digest app =
    (kind ++ (codes ":ip:" ++ env.digest (remote_ip env remote_addr)), p.per_ip)
    ∷ (kind ++ (codes ":fingerprint:" ++ fingerprint_digest), fingerprint_limit p)
    ∷ (kind ++ (codes ":email:" ++ email_digest), p.per_email)
    ∷ (kind ++ (codes ":app:" ++ safe_app app), p.per_app)
    ∷ (kind ++ codes ":global", p.global)
    ∷ []

unfoldable pub handoff_budgets : Env → HandoffPolicy → Text → Text → Text → List (Text × ℕ)
unfolding remote_ip
handoff_budgets env p remote_addr fingerprint_digest app =
    (codes "identity_handoff:ip:" ++ env.digest (remote_ip env remote_addr), p.per_ip)
    ∷ (codes "identity_handoff:fingerprint:" ++ fingerprint_digest, p.per_fingerprint)
    ∷ (codes "identity_handoff:app:" ++ safe_app app, p.per_app)
    ∷ (codes "identity_handoff:global", p.global)
    ∷ []

-- The part of `allow` and `allowHandoff` under the mutex, over the keys and limits of the attempt.
unfoldable pub charge : ℕ → ℕ → List (Text × ℕ) → Limiter → Limiter × Bool
unfolding prune_transactions
charge now window keys l =
    let (buckets, ok) = admit now window l.config.max_keys keys l.buckets in
    (record l { buckets = buckets; transactions = prune_transactions now l.transactions }, ok)

-- `allow`: the two digests have been taken.
unfoldable pub allow : Env → ℕ → Limiter → Kind → Text → Text → Text → Text → Limiter × Bool
unfolding policy
allow env now l kind remote_addr fingerprint_digest email_digest app = elim (policy l kind) [
  | none ↦ (l, false)
  | some p ↦
      charge now p.window (budgets env p kind remote_addr fingerprint_digest email_digest app) l
]

unfoldable pub allow_handoff : Env → ℕ → Limiter → Text → Text → Text → Limiter × Bool
allow_handoff env now l remote_addr fingerprint_digest app =
    let p = l.config.handoff in
    charge now p.window (handoff_budgets env p remote_addr fingerprint_digest app) l

unfoldable pub allow_fingerprint :
    Env → ℕ → Limiter → Kind → Text → Text → Text → Text → Limiter × Bool
unfolding policy
allow_fingerprint env now l kind remote_addr fingerprint email app = elim (policy l kind) [
  | none ↦ (l, false)
  | some p ↦
      allow env now l kind remote_addr (env.digest (normalized_or_opaque fingerprint))
        (env.digest (normalized_or_opaque email)) app
]

unfoldable pub bind_transaction : Env → ℕ → Limiter → Text → Text → Text → Limiter
unfolding prune_transactions
bind_transaction env now l transaction email fingerprint =
    let kept = prune_transactions now l.transactions in
    let binding : Binding = record {
      email_digest = env.digest (normalized_or_opaque email);
      fingerprint_digest = env.digest (normalized_or_opaque fingerprint);
      expires_at = now + l.config.request.window;
    } in
    if length transaction == 0
    then l
    else if not (has_key transaction kept) && leb l.config.max_keys (length kept)
    then record l { transactions = kept }
    else record l { transactions = insert transaction binding kept }

-- An expired binding is deleted, and the attempt is charged to the transaction itself.
unfoldable pub live_binding : ℕ → Limiter → Text → Limiter × Option Binding
live_binding now l transaction = elim (lookup transaction l.transactions) [
  | none ↦ (l, none)
  | some b ↦
      if ltb now b.expires_at
      then (l, some b)
      else (record l { transactions = delete transaction l.transactions }, none)
]

abbrev charged_digests : Env → Text → Option Binding → Text × Text
charged_digests env transaction (some b) = (b.fingerprint_digest, b.email_digest)
charged_digests env transaction none = (
  env.digest (codes "transaction:" ++ transaction),
  env.digest (codes "transaction:" ++ transaction),
)

unfoldable pub allow_transaction : Env → ℕ → Limiter → Kind → Text → Text → Text → Limiter × Bool
unfolding live_binding
allow_transaction env now l kind remote_addr transaction app =
    let (l', binding) = live_binding now l transaction in
    let (print, mail) = charged_digests env transaction binding in
    allow env now l' kind remote_addr print mail app
