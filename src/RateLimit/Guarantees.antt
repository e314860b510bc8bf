-- ===== src/RateLimit/Guarantees.antt =====
-- internal/ratelimit/ratelimit.go: the limits, as they hold after any history of calls of a limiter
-- whose policies share one window.
use tinkercloud.Prelude.{ℕ, ◌+◌, ◌≤◌, ◌<◌, ◌≡◌, ap, ◌∙◌, true, some, ◌++◌, arith, Text, length}
use tinkercloud.Prelude.Map.{lookup}
use tinkercloud.RateLimit.{
  Kind, Policy, Config, Limiter, Env, policy, budgets, handoff_budgets, allow, allow_handoff,
}
use tinkercloud.RateLimit.Log.{Log, entries, recent_count, within_limits}
use tinkercloud.RateLimit.Laws.{
  IsUniform, Reach, Inv, charge-eq-within, charge_within_after, Reach-Inv, policy_window,
  allow-charge, budgets-IsDistinct, handoff_budgets-IsDistinct,
}

module _ {env : Env} {config : Config} {l : Limiter} {log : Log} {last : ℕ} (window : ℕ)
    (u : IsUniform window config) (r : Reach env config l log last) where
  -- A limiter with uniform windows and a free key answers an attempt of a known kind, made no
  -- earlier than the last one, exactly as the log of admitted attempts says: yes if and only if each
  -- of its five keys was admitted fewer times than its limit within the window before now.
  pub allow-eq-within :
      (now : ℕ) (kind : Kind) (p : Policy) (remote_addr print mail app : Text)
      → last ≤ now
      → policy l kind ≡ some p
      → length l.buckets < l.config.max_keys
      → (allow env now l kind remote_addr print mail app).1
        ≡ within_limits now window log (budgets env p kind remote_addr print mail app)
  allow-eq-within now kind p remote_addr print mail app h e room =
      let i : Inv window last config log l = Reach-Inv window u r in
      rw (allow-charge env now l kind p remote_addr print mail app e) (
        charge-eq-within window last now p.window log l
          (budgets env p kind remote_addr print mail app)
          (policy_window window l kind p (rw i.fixed u) e) i h room)

  -- Whenever a limiter with uniform windows admits an attempt, made no earlier than the last one,
  -- each key of the attempt has been admitted at most its limit of times within the window before
  -- now, this attempt included.
  pub allow_recent_le :
      (now : ℕ) (kind : Kind) (p : Policy) (remote_addr print mail app : Text)
      → last ≤ now
      → policy l kind ≡ some p
      → (allow env now l kind remote_addr print mail app).1 ≡ true
      → (k : Text) (limit : ℕ)
      → lookup k (budgets env p kind remote_addr print mail app) ≡ some limit
      → recent_count now window k
          (log ++ entries now (budgets env p kind remote_addr print mail app))
        ≤ limit
  allow_recent_le now kind p remote_addr print mail app h e a k limit f =
      let i : Inv window last config log l = Reach-Inv window u r in
      charge_within_after window last now p.window log l
        (budgets env p kind remote_addr print mail app)
        (policy_window window l kind p (rw i.fixed u) e) i h k limit
        (budgets-IsDistinct env p kind remote_addr print mail app) f
        (rw (allow-charge env now l kind p remote_addr print mail app e) at a)

  -- Whenever a limiter with uniform windows admits the start of an identity handoff, made no earlier
  -- than the last attempt, each of its four keys has been admitted at most its limit of times within
  -- the window before now, this one included.
  pub allow_handoff_recent_le :
      (now : ℕ) (remote_addr print app : Text)
      → last ≤ now
      → (allow_handoff env now l remote_addr print app).1 ≡ true
      → (k : Text) (limit : ℕ)
      → lookup k (handoff_budgets env l.config.handoff remote_addr print app) ≡ some limit
      → recent_count now window k
          (log ++ entries now (handoff_budgets env l.config.handoff remote_addr print app))
        ≤ limit
  unfolding allow_handoff
  allow_handoff_recent_le now remote_addr print app h a k limit f =
      let i : Inv window last config log l = Reach-Inv window u r in
      charge_within_after window last now l.config.handoff.window log l
        (handoff_budgets env l.config.handoff remote_addr print app)
        (ap (λ (c : Config). c.handoff.window) i.fixed ∙ u.handoff) i h k limit
        (handoff_budgets-IsDistinct env l.config.handoff remote_addr print app) f a

  -- A limiter with uniform windows never holds more than `max_keys + 4` buckets.
  buckets_bounded : length l.buckets ≤ config.max_keys + 4
  buckets_bounded = omega (arith, (Reach-Inv window u r).bounded)
