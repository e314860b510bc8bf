-- ===== src/Tests/Otp.antt =====
-- internal/otp/otp.go: instances.
use tinkercloud.Prelude.{
  ◌≡◌, refl, arith, true, Option, none, some, [], ◌∷◌, ◌++◌, Text, codes, text_eq,
}
use tinkercloud.Prelude.Map.{Map, lookup, insert, update_all}
use tinkercloud.Otp.{
  Challenge, Service, State, request, verify, new_challenge, create, consume, invalidate_active,
  refused,
}
use tinkercloud.Otp.Redemption.{now_here, Redeemed, verify-Redeemed, verify_once}
use tinkercloud.Otp.Supersession.{request-verify, request_supersedes}

abbrev service : Service
service = record {
  key = codes "k";
  ttl = 0;
  max_attempts = 0;
  hash = λ k id code. id ++ code;
  enqueue = none;
}

abbrev empty : State
empty = record { challenges = []; sent = [] }

abbrev session_of : Challenge → Option Text
session_of c = some (codes "session")

-- One request, and what redeeming it leaves.
abbrev requested : State
requested =
    (request service empty (codes "app") (codes "m") true 5 (some (codes "123456"))
      (some (codes "id"))).0

abbrev own : Challenge
own = new_challenge service (codes "app") (codes "m") (codes "id") (codes "123456") 5

abbrev redeemed : Map Challenge
redeemed = (codes "id", record own { consumed_at = some 9 }) ∷ []

verify-Redeemed_example :
    (c : Challenge) × Redeemed service requested.challenges redeemed
      (codes "app")
      (codes "m")
      (codes "id")
      (codes "123456")
      9
      session_of
      (codes "session")
      c
unfolding request create invalidate_active update_all insert verify consume lookup text_eq refused
    new_challenge
verify-Redeemed_example =
    verify-Redeemed service requested.challenges redeemed (codes "app") (codes "m") (codes "id")
      (codes "123456") 9 session_of (codes "session") refl

verify_once_example :
    verify service redeemed (codes "app") (codes "m") (codes "id") (codes "123456") 10 session_of
    ≡ (redeemed, none)
unfolding request create invalidate_active update_all insert verify consume lookup text_eq refused
    new_challenge
verify_once_example =
    verify_once service requested (record requested { challenges = redeemed }) (codes "app")
      (codes "m") (codes "id") (codes "123456") 9 session_of (codes "session") (refl, tt) refl
      now_here (codes "app") (codes "m") (codes "123456") 10 session_of

request-verify_example :
    (verify service requested.challenges
      (codes "app")
      (codes "m")
      (codes "id")
      (codes "123456")
      9
      session_of).1
    ≡ session_of own
unfolding new_challenge
request-verify_example =
    request-verify service empty (codes "app") (codes "m") (codes "id") (codes "123456") true 5 9
      session_of refl (omega arith)

-- A second request for the same email.
abbrev again : State
again =
    (request service requested (codes "app") (codes "m") true 6 (some (codes "654321"))
      (some (codes "next"))).0

request_supersedes_example :
    verify service again.challenges
      (codes "app")
      (codes "m")
      (codes "id")
      (codes "123456")
      9
      session_of
    ≡ (again.challenges, none)
unfolding request create invalidate_active update_all insert lookup text_eq new_challenge
request_supersedes_example =
    request_supersedes service requested (codes "app") (codes "m") (codes "654321") (codes "next")
      (codes "id") true 6 own (refl, tt) refl refl refl refl refl (codes "app") (codes "m")
      (codes "123456") 9 session_of
