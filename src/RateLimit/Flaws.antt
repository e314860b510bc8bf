-- ===== src/RateLimit/Flaws.antt =====
-- internal/ratelimit/ratelimit.go: `allow` prunes every bucket by the window of its own policy,
-- the buckets of other policies included.
use tinkercloud.Prelude.{ℕ, ◌+◌, ◌≤◌, ◌≡◌, refl, ◌∙◌, none, some, List, [], ◌∷◌, arith, Text, All}
use tinkercloud.Prelude.Map.{lookup, IsDistinct}
use tinkercloud.RateLimit.{Kind, Policy, Limiter, Env, policy, budgets, charge, allow}
use tinkercloud.RateLimit.Window.{drop_old, events_of}
use tinkercloud.RateLimit.Tracking.{events_of-prune, events_of-admit}
use tinkercloud.RateLimit.Laws.{allow-charge}

drop_old_stale :
    (now window : ℕ) (es : List ℕ) → All (λ e. e + window ≤ now) es → drop_old now window es ≡ []
unfolding drop_old
drop_old_stale now window [] a = refl
drop_old_stale now window (e ∷ es) a = ground (arith, drop_old_stale now window es a.1)

-- An attempt of one kind, admitted or not, empties every bucket that it does not charge and whose
-- events are all older than that kind's own window, however long the window of the policy is that
-- the bucket belongs to.
allow_forgets_foreign :
    (env : Env) (now : ℕ) (l : Limiter) (kind : Kind) (p : Policy)
    (remote_addr print mail app k : Text)
    → IsDistinct l.buckets
    → policy l kind ≡ some p
    → lookup k (budgets env p kind remote_addr print mail app) ≡ none
    → All (λ e. e + p.window ≤ now) (events_of k l.buckets)
    → events_of k (allow env now l kind remote_addr print mail app).0.buckets ≡ []
unfolding charge
allow_forgets_foreign env now l kind p remote_addr print mail app k d e f old =
    rw (allow-charge env now l kind p remote_addr print mail app e) (
      events_of-admit now p.window l.config.max_keys k
        (budgets env p kind remote_addr print mail app) l.buckets f
      ∙ events_of-prune now p.window k l.buckets d
      ∙ drop_old_stale now p.window (events_of k l.buckets) old)
