-- ===== src/RateLimit/Transactions.antt =====
-- internal/ratelimit/ratelimit.go: a login transaction carries the email's and the browser's budget.
use tinkercloud.Prelude.{ℕ, ◌+◌, ◌≤◌, ◌<◌, ◌≡◌, some, arith, Text, length}
use tinkercloud.Prelude.Map.{lookup, has_key, lookup-insert_self, length-update_all, length-insert}
use tinkercloud.RateLimit.{
  Kind, Limiter, Env, Binding, policy, allow, allow_fingerprint, allow_transaction, live_binding,
  bind_transaction, normalized_or_opaque, prune_transactions, expire_binding,
}

bind_transaction_binds :
    (env : Env) (now : ℕ) (l : Limiter) (transaction email fingerprint : Text)
    → 0 < length transaction
    → length l.transactions < l.config.max_keys
    → lookup transaction (bind_transaction env now l transaction email fingerprint).transactions
      ≡ some (record {
        email_digest = env.digest (normalized_or_opaque email);
        fingerprint_digest = env.digest (normalized_or_opaque fingerprint);
        expires_at = now + l.config.request.window;
      })
unfolding bind_transaction prune_transactions
bind_transaction_binds env now l transaction email fingerprint h room = ground (
  arith,
  length-update_all (expire_binding now) l.transactions,
  lookup-insert_self transaction
      (record {
        email_digest = env.digest (normalized_or_opaque email);
        fingerprint_digest = env.digest (normalized_or_opaque fingerprint);
        expires_at = now + l.config.request.window;
      })
      (prune_transactions now l.transactions),
)

live_binding_found :
    (now : ℕ) (l : Limiter) (transaction : Text) (b : Binding)
    → lookup transaction l.transactions ≡ some b
    → now < b.expires_at
    → live_binding now l transaction ≡ (l, some b)
unfolding live_binding
live_binding_found now l transaction b e h = ground arith

allow-fingerprint :
    (env : Env) (now : ℕ) (l : Limiter) (kind : Kind) (remote_addr fingerprint email app : Text)
    → allow env now l kind remote_addr
        (env.digest (normalized_or_opaque fingerprint))
        (env.digest (normalized_or_opaque email))
        app
      ≡ allow_fingerprint env now l kind remote_addr fingerprint email app
unfolding allow allow_fingerprint policy
allow-fingerprint env now l kind remote_addr fingerprint email app = ground arith

-- After a nonempty transaction is bound to an email and a fingerprint, in a limiter with a free
-- transaction, an attempt on the transaction before the request window is over is answered and
-- charged exactly like an attempt that names the email and the fingerprint itself.
pub allow_transaction-bind :
    (env : Env) (now now' : ℕ) (l : Limiter) (kind : Kind)
    (transaction email fingerprint remote_addr app : Text)
    → 0 < length transaction
    → length l.transactions < l.config.max_keys
    → now' < now + l.config.request.window
    → let bound = bind_transaction env now l transaction email fingerprint in
      allow_transaction env now' bound kind remote_addr transaction app
      ≡ allow_fingerprint env now' bound kind remote_addr fingerprint email app
unfolding allow_transaction
allow_transaction-bind env now now' l kind transaction email fingerprint remote_addr app h room
      early =
    rw
      (live_binding_found now' (bind_transaction env now l transaction email fingerprint)
        transaction _ (bind_transaction_binds env now l transaction email fingerprint h room) early)
      (allow-fingerprint env now' (bind_transaction env now l transaction email fingerprint) kind
        remote_addr fingerprint email app)

-- The number of bound transactions never passes `max_keys`.
pub bind_transaction_bounded :
    (env : Env) (now : ℕ) (l : Limiter) (transaction email fingerprint : Text)
    → length l.transactions ≤ l.config.max_keys
    → length (bind_transaction env now l transaction email fingerprint).transactions
      ≤ l.config.max_keys
unfolding bind_transaction prune_transactions has_key
bind_transaction_bounded env now l transaction email fingerprint h = ground (
  arith,
  length-update_all (expire_binding now) l.transactions,
  length-insert transaction
      (record {
        email_digest = env.digest (normalized_or_opaque email);
        fingerprint_digest = env.digest (normalized_or_opaque fingerprint);
        expires_at = now + l.config.request.window;
      })
      (prune_transactions now l.transactions),
)
