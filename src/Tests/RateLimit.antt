-- ===== src/Tests/RateLimit.antt =====
-- internal/ratelimit/ratelimit.go: runs and instances.
use tinkercloud.Prelude.{
  ◌*◌, ◌≤◌, ◌≡◌, refl, true, false, some, [], ◌∷◌, ◌++◌, arith, text_eq, codes, length,
}
use tinkercloud.Prelude.Map.{lookup, insert, has_key, update_all}
use tinkercloud.Prelude.Strings.{trim_space, to_lower}
use tinkercloud.RateLimit.{
  Config, Limiter, Env, otp_request, default_config, minute, new, with_handoff, valid_policy,
  valid_handoff_policy, policy, budgets, charge, allow, safe_app,
}
use tinkercloud.RateLimit.Window.{admit}
use tinkercloud.RateLimit.Log.{Log, entries, recent_count, within_limits}
use tinkercloud.RateLimit.Laws.{IsUniform, Reach, start, attempt}
use tinkercloud.RateLimit.Guarantees.{allow-eq-within, allow_recent_le}

abbrev host : Env
host = record { digest = λ s. s; split_host_port = λ s. some s; is_ip = λ s. true }

-- One request for each email in ten minutes.
abbrev strict : Config
strict = record {
  request = record {
    window = 10 * minute;
    per_ip = 10;
    per_fingerprint = 10;
    per_email = 1;
    per_app = 100;
    global = 1000;
  };
  verify = default_config.verify;
  handoff = default_config.handoff;
  max_keys = 10000;
}

abbrev fresh : Limiter
fresh = record { config = strict; buckets = []; transactions = [] }

fresh-Reach : Reach host strict fresh [] 0
unfolding new with_handoff valid_policy valid_handoff_policy
fresh-Reach = start (codes "k") strict fresh refl refl

strict-IsUniform : IsUniform (10 * minute) strict
strict-IsUniform = record { request = refl; verify = refl; handoff = refl }

abbrev once : Limiter
once = (allow host 5 fresh otp_request (codes "1.2.3.4") (codes "p") (codes "m") (codes "app")).0

abbrev once_log : Log
once_log = entries 5 (
    budgets host strict.request otp_request (codes "1.2.3.4") (codes "p") (codes "m") (codes "app"))

second_refused :
    (allow host 6 once otp_request (codes "9.9.9.9") (codes "q") (codes "m") (codes "app")).1
    ≡ false
unfolding allow charge budgets safe_app lookup has_key text_eq admit update_all insert
second_refused = refl

allow-eq-within_example :
    (allow host 5 fresh otp_request (codes "1.2.3.4") (codes "p") (codes "m") (codes "app")).1
    ≡ within_limits 5 (10 * minute) [] (
        budgets host strict.request otp_request
          (codes "1.2.3.4")
          (codes "p")
          (codes "m")
          (codes "app"))
unfolding policy text_eq
allow-eq-within_example =
    allow-eq-within (10 * minute) strict-IsUniform fresh-Reach 5 otp_request strict.request
      (codes "1.2.3.4") (codes "p") (codes "m") (codes "app") (omega arith) refl (omega arith)

once-Reach : Reach host strict once once_log 5
unfolding allow policy text_eq charge budgets safe_app lookup has_key admit update_all insert
    entries
once-Reach =
    attempt fresh [] 0 5 otp_request strict.request (codes "1.2.3.4") (codes "p") (codes "m")
      (codes "app") fresh-Reach (omega arith) refl

-- Another email is admitted a second later.
allow_recent_le_example :
    recent_count 6 (10 * minute) (codes "otp_request:email:n") (
      once_log
      ++ entries 6 (
          budgets host strict.request otp_request
            (codes "1.2.3.4")
            (codes "p")
            (codes "n")
            (codes "app")))
    ≤ 1
unfolding allow policy text_eq charge budgets safe_app lookup has_key admit update_all insert
    trim_space to_lower
allow_recent_le_example =
    allow_recent_le (10 * minute) strict-IsUniform once-Reach 6 otp_request strict.request
      (codes "1.2.3.4") (codes "p") (codes "n") (codes "app") (omega arith) refl refl
      (codes "otp_request:email:n") 1 refl

-- Verifications are counted over an hour, requests over a minute.
abbrev mixed : Config
mixed = record {
  request = record default_config.request { window = minute };
  verify = record default_config.verify { window = 60 * minute };
  handoff = default_config.handoff;
  max_keys = 10000;
}

abbrev verified : Limiter
verified = record {
  config = mixed;
  buckets = (codes "otp_verify:email:m", 1 ∷ 2 ∷ 3 ∷ []) ∷ [];
  transactions = [];
}

-- With one place left, an attempt enters all its five keys.
abbrev four_keys : Limiter
four_keys = record {
  config = record strict { max_keys = 5 };
  buckets =
      (codes "a", 1 ∷ []) ∷ (codes "b", 1 ∷ []) ∷ (codes "c", 1 ∷ []) ∷ (codes "d", 1 ∷ []) ∷ [];
  transactions = [];
}

max_keys_overrun :
    length
      (allow host 6 four_keys otp_request
        (codes "1.2.3.4")
        (codes "p")
        (codes "m")
        (codes "app")).0.buckets
    ≡ 9
unfolding allow charge budgets safe_app lookup has_key text_eq admit update_all insert policy
max_keys_overrun = refl
