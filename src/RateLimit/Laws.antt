-- ===== src/RateLimit/Laws.antt =====
-- internal/ratelimit/ratelimit.go: what holds of a limiter after any history of calls.
use tinkercloud.Prelude.{
  ℕ, suc, ◌+◌, ◌≤◌, ◌<◌, ◌≡◌, refl, sym, ap, ◌∙◌, Bool, true, some, List, [], ◌++◌, arith, Text,
  text_eq, text_eq-append, length, if◌then◌else◌,
}
use tinkercloud.Prelude.Map.{lookup, IsDistinct}
use tinkercloud.RateLimit.{
  Kind, Policy, HandoffPolicy, Config, Limiter, Env, new, policy, budgets, handoff_budgets, charge,
  allow, allow_handoff, live_binding, bind_transaction,
}
use tinkercloud.RateLimit.Log.{Log, entries, recent_count, within_limits}
use tinkercloud.RateLimit.Tracking.{Tracks, empty-Tracks}
use tinkercloud.RateLimit.Decision.{
  admit-Tracks, admit_within, admit-eq-within, within_limits_after, length-admit,
}

-- Every policy of the configuration has this window.
pub record IsUniform (window : ℕ) (c : Config) : Type 0 where
  pub request : c.request.window ≡ window
  pub verify : c.verify.window ≡ window
  pub handoff : c.handoff.window ≡ window

-- One attempt's bookkeeping: what it adds to the log if it is admitted.
abbrev pub extend : Log → ℕ → List (Text × ℕ) → Bool → Log
extend log now keys ok = if ok then log ++ entries now keys else log

-- The limiters that calls at rising times make from a new one, with the log of what was admitted.
pub data Reach (env : Env) (config : Config) : Limiter → Log → ℕ → Type 0 where
  start :
      (key : Text) (cfg : Config) (l : Limiter)
      → new key cfg ≡ some l
      → l.config ≡ config
      → Reach env config l [] 0
  attempt :
      (l : Limiter) (log : Log) (last now : ℕ) (kind : Kind) (p : Policy)
      (remote_addr print mail app : Text)
      → Reach env config l log last
      → last ≤ now
      → policy l kind ≡ some p
      → Reach env config
          (allow env now l kind remote_addr print mail app).0
          (extend log now
            (budgets env p kind remote_addr print mail app)
            (allow env now l kind remote_addr print mail app).1)
          now
  handoff :
      (l : Limiter) (log : Log) (last now : ℕ) (remote_addr print app : Text)
      → Reach env config l log last
      → last ≤ now
      → Reach env config
          (allow_handoff env now l remote_addr print app).0
          (extend log now
            (handoff_budgets env l.config.handoff remote_addr print app)
            (allow_handoff env now l remote_addr print app).1)
          now
  bind :
      (l : Limiter) (log : Log) (last now : ℕ) (transaction email fingerprint : Text)
      → Reach env config l log last
      → last ≤ now
      → Reach env config (bind_transaction env now l transaction email fingerprint) log last
  look :
      (l : Limiter) (log : Log) (last now : ℕ) (transaction : Text)
      → Reach env config l log last
      → last ≤ now
      → Reach env config (live_binding now l transaction).0 log last

pub record Inv (window last : ℕ) (config : Config) (log : Log) (l : Limiter) : Type 0 where
  pub fixed : l.config ≡ config
  pub tracks : Tracks window last log l.buckets
  pub bounded : suc (length l.buckets) ≤ config.max_keys + 5

pub policy_window :
    (window : ℕ) (l : Limiter) (kind : Kind) (p : Policy)
    → IsUniform window l.config
    → policy l kind ≡ some p
    → p.window ≡ window
unfolding policy
policy_window window l kind p u e = ground arith

length-budgets :
    (env : Env) (p : Policy) (kind remote_addr print mail app : Text)
    → length (budgets env p kind remote_addr print mail app) ≡ 5
unfolding budgets
length-budgets env p kind remote_addr print mail app = refl

length-handoff_budgets :
    (env : Env) (p : HandoffPolicy) (remote_addr print app : Text)
    → length (handoff_budgets env p remote_addr print app) ≡ 4
unfolding handoff_budgets
length-handoff_budgets env p remote_addr print app = refl

charge-Inv :
    (window last now : ℕ) (config : Config) (log : Log) (l : Limiter) (keys : List (Text × ℕ))
    → Inv window last config log l
    → last ≤ now
    → length keys ≤ 5
    → let (l', ok) = charge now window keys l in Inv window now config (extend log now keys ok) l'
unfolding charge
charge-Inv window last now config log l keys i h k = record {
  fixed = i.fixed;
  tracks = admit-Tracks window last now log l.buckets i.tracks h l.config.max_keys keys;
  bounded =
      rw (ap (λ (c : Config). c.max_keys) i.fixed)
        (length-admit window now config.max_keys 5 keys l.buckets k i.bounded);
}

charge_window-Inv :
    (window last now w : ℕ) (config : Config) (log : Log) (l : Limiter) (keys : List (Text × ℕ))
    → w ≡ window
    → Inv window last config log l
    → last ≤ now
    → length keys ≤ 5
    → let (l', ok) = charge now w keys l in Inv window now config (extend log now keys ok) l'
charge_window-Inv window last now w config log l keys e i h k =
    rw e (charge-Inv window last now config log l keys i h k)

Inv-same :
    (window last : ℕ) (config : Config) (log : Log) (l l' : Limiter)
    → l'.config ≡ l.config
    → l'.buckets ≡ l.buckets
    → Inv window last config log l
    → Inv window last config log l'
Inv-same window last config log l l' c b i = record {
  fixed = c ∙ i.fixed;
  tracks = rw b i.tracks;
  bounded = rw b i.bounded;
}

bind_transaction-keeps :
    (env : Env) (now : ℕ) (l : Limiter) (transaction email fingerprint : Text)
    → ((bind_transaction env now l transaction email fingerprint).config ≡ l.config)
      × ((bind_transaction env now l transaction email fingerprint).buckets ≡ l.buckets)
unfolding bind_transaction
bind_transaction-keeps env now l transaction email fingerprint = ground arith

live_binding-keeps :
    (now : ℕ) (l : Limiter) (transaction : Text)
    → ((live_binding now l transaction).0.config ≡ l.config)
      × ((live_binding now l transaction).0.buckets ≡ l.buckets)
unfolding live_binding
live_binding-keeps now l transaction = ground arith

new_empty : (key : Text) (cfg : Config) (l : Limiter) → new key cfg ≡ some l → l.buckets ≡ []
unfolding new
new_empty key cfg l e = ground arith

pub allow-charge :
    (env : Env) (now : ℕ) (l : Limiter) (kind : Kind) (p : Policy)
    (remote_addr print mail app : Text)
    → policy l kind ≡ some p
    → allow env now l kind remote_addr print mail app
      ≡ charge now p.window (budgets env p kind remote_addr print mail app) l
unfolding allow
allow-charge env now l kind p remote_addr print mail app e = rw (e, allow)

new-Inv :
    (window : ℕ) (config : Config) (key : Text) (cfg : Config) (l : Limiter)
    → new key cfg ≡ some l
    → l.config ≡ config
    → Inv window 0 config [] l
new-Inv window config key cfg l e c = record {
  fixed = c;
  tracks = rw (new_empty key cfg l e) (empty-Tracks window);
  bounded = rw (new_empty key cfg l e) (omega arith);
}

pub Reach-Inv :
    {env : Env} {config : Config} {l : Limiter} {log : Log} {last : ℕ} (window : ℕ)
    → IsUniform window config
    → Reach env config l log last
    → Inv window last config log l
unfolding allow_handoff
Reach-Inv window u (start key cfg l e c) = new-Inv window _ key cfg l e c
Reach-Inv {env} {config} window u (attempt l log last now kind p remote_addr print mail app r h e) =
    let i : Inv window last config log l = Reach-Inv window u r in
    let keys : List (Text × ℕ) = budgets env p kind remote_addr print mail app in
    rw (allow-charge env now l kind p remote_addr print mail app e) (
      charge_window-Inv window last now p.window config log l keys
        (policy_window window l kind p (rw i.fixed u) e) i h
        (omega (arith, length-budgets env p kind remote_addr print mail app)))
Reach-Inv {env} {config} window u (handoff l log last now remote_addr print app r h) =
    let i : Inv window last config log l = Reach-Inv window u r in
    let p : HandoffPolicy = l.config.handoff in
    charge_window-Inv window last now p.window config log l
      (handoff_budgets env p remote_addr print app)
      (ap (λ (c : Config). c.handoff.window) i.fixed ∙ u.handoff) i h
      (omega (arith, length-handoff_budgets env p remote_addr print app))
Reach-Inv {env} {config} window u (bind l log last now transaction email fingerprint r h) =
    let (c, b) = bind_transaction-keeps env now l transaction email fingerprint in
    Inv-same window last config log l _ c b (Reach-Inv window u r)
Reach-Inv {env} {config} window u (look l log last now transaction r h) =
    let (c, b) = live_binding-keeps now l transaction in
    Inv-same window last config log l _ c b (Reach-Inv window u r)

-- The five keys of an attempt are five buckets.
pub budgets-IsDistinct :
    (env : Env) (p : Policy) (kind remote_addr print mail app : Text)
    → IsDistinct (budgets env p kind remote_addr print mail app)
unfolding budgets lookup text_eq
budgets-IsDistinct env p kind remote_addr print mail app = (
  simp text_eq-append,
  (simp text_eq-append, (simp text_eq-append, (simp text_eq-append, (refl, tt)))),
)

pub handoff_budgets-IsDistinct :
    (env : Env) (p : HandoffPolicy) (remote_addr print app : Text)
    → IsDistinct (handoff_budgets env p remote_addr print app)
unfolding handoff_budgets lookup text_eq
handoff_budgets-IsDistinct env p remote_addr print app = (refl, (refl, (refl, (refl, tt))))

module _ (window last now w : ℕ) {config : Config} (log : Log) (l : Limiter)
    (keys : List (Text × ℕ)) (e : w ≡ window) (i : Inv window last config log l)
    (h : last ≤ now) where
  pub charge-eq-within :
      length l.buckets < l.config.max_keys
      → (charge now w keys l).1 ≡ within_limits now window log keys
  unfolding charge
  charge-eq-within room =
      rw e (admit-eq-within window last now log l.buckets i.tracks h l.config.max_keys keys room)

  pub charge_within_after :
      (k : Text) (limit : ℕ)
      → IsDistinct keys
      → lookup k keys ≡ some limit
      → (charge now w keys l).1 ≡ true
      → recent_count now window k (log ++ entries now keys) ≤ limit
  unfolding charge
  charge_within_after k limit d f a =
      within_limits_after now window log keys k limit d
        (admit_within window last now log l.buckets i.tracks h l.config.max_keys keys
          (rw (sym e) a))
        f
