-- ===== src/Otp/Supersession.antt =====
-- internal/otp/otp.go: a requested code redeems its own challenge, and only until the next request
-- or until its attempts are used up.
use tinkercloud.Prelude.{
  ℕ, ◌<◌, ◌≡◌, refl, ap, ◌∙◌, Bool, true, false, ◌&&◌, Option, none, some, arith, Text, text_eq,
  text_eq_iff, text_eq_refl, length, ◌==◌, if◌then◌else◌,
}
use tinkercloud.Prelude.Map.{
  Map, lookup, insert, update_all, lookup-insert, lookup-insert_self, lookup-update_all, IsDistinct,
}
use tinkercloud.Otp.{
  Challenge, Service, State, is_none, create, invalidate, invalidate_active, refused, check_code,
  verify, request, new_challenge,
}
use tinkercloud.Otp.Redemption.{settle, consume-settle, consume-refused}

new_challenge-open :
    (s : Service) (app email id code : Text) (now now' : ℕ)
    → now' < (new_challenge s app email id code now).expires_at
    → refused (new_challenge s app email id code now) app email now' ≡ false
unfolding refused new_challenge
new_challenge-open s app email id code now now' h =
    ground (arith, text_eq_refl app, text_eq_refl email)

requested :
    (s : Service) (st : State) (app email id code : Text) (eligible : Bool) (now : ℕ)
    → (length s.key == 0) ≡ false
    → lookup id (request s st app email eligible now (some code) (some id)).0.challenges
      ≡ some (new_challenge s app email id code now)
unfolding request create new_challenge
requested s st app email id code eligible now k = rw k (
    lookup-insert_self id (new_challenge s app email id code now)
      (invalidate_active st.challenges app email now))

settle-session :
    {S : Type 0} (m : Map Challenge) (id : Text) (now : ℕ) (c : Challenge) (o : Option S)
    → (settle m id now c o).1 ≡ o
settle-session m id now c none = refl
settle-session m id now c (some x) = refl

-- With a key, the code of a request redeems its challenge at once and until it expires: the answer
-- is whatever the creation of the session answers for that challenge.
pub request-verify :
    {S : Type 0} (s : Service) (st : State) (app email id code : Text) (eligible : Bool)
    (now now' : ℕ) (create_session : Challenge → Option S)
    → (length s.key == 0) ≡ false
    → now' < (new_challenge s app email id code now).expires_at
    → (verify s
        (request s st app email eligible now (some code) (some id)).0.challenges
        app
        email
        id
        code
        now'
        create_session).1
      ≡ create_session (new_challenge s app email id code now)
unfolding verify
request-verify s st app email id code eligible now now' create_session k h = rw k (
    ap (λ (p : Map Challenge × Option _). p.1)
      (consume-settle _ app email id now' (check_code s id code create_session)
        (new_challenge s app email id code now) (requested s st app email id code eligible now k)
        (new_challenge-open s app email id code now now' h))
    ∙ settle-session _ id now' (new_challenge s app email id code now) _
    ∙ own_code)
  where
    own_code :
        check_code s id code create_session (new_challenge s app email id code now)
        ≡ create_session (new_challenge s app email id code now)
    own_code = unfold new_challenge in rw (text_eq_refl (s.hash s.key id code))

-- A request with a key that draws another ID leaves no earlier challenge of the same app and email
-- redeemable: whatever is tried on one then is refused and changes nothing.
pub request_supersedes :
    {S : Type 0} (s : Service) (st : State) (app email code id old : Text) (eligible : Bool)
    (now : ℕ) (c : Challenge)
    → IsDistinct st.challenges
    → (length s.key == 0) ≡ false
    → lookup old st.challenges ≡ some c
    → c.app_id ≡ app
    → c.email ≡ email
    → text_eq id old ≡ false
    → (app' email' code' : Text) (now' : ℕ) (create_session : Challenge → Option S)
    → let m = (request s st app email eligible now (some code) (some id)).0.challenges in
      verify s m app' email' old code' now' create_session ≡ (m, none)
unfolding request create verify invalidate_active
request_supersedes s st app email code id old eligible now c d k found a e n app' email' code' now'
      create_session =
    rw k (
      consume-refused _ app' email' old now' (check_code s old code' create_session) (closed c)
        still (closed_refused c app' email' now'))
  where
    closed : Challenge → Challenge
    closed c =
        if is_none c.consumed_at && is_none c.invalidated_at
        then record c { invalidated_at = some now }
        else c

    closed_refused :
        (c : Challenge) (app email : Text) (now : ℕ) → refused (closed c) app email now ≡ true
    closed_refused c app email now = unfold refused in ground arith

    still :
        lookup old (
          insert id
            (new_challenge s app email id code now)
            (update_all (invalidate app email now) st.challenges))
        ≡ some (closed c)
    still = ground (
      arith,
      lookup-insert id old (new_challenge s app email id code now)
          (update_all (invalidate app email now) st.challenges),
      lookup-update_all (invalidate app email now) old st.challenges d,
      found,
      text_eq_iff c.app_id app,
      text_eq_iff c.email email,
    )
