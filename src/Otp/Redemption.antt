-- ===== src/Otp/Redemption.antt =====
-- internal/otp/otp.go: what a code can be redeemed for, and how often.
use tinkercloud.Prelude.{
  ℕ, ◌+◌, ◌<◌, ◌≡◌, refl, sym, ◌∙◌, inl, inr, Bool, true, false, Option, none, some, arith, Text,
  text_eq, text_eq_iff, length, ◌==◌, Option-cases, Bool-cases,
}
use tinkercloud.Prelude.Map.{
  Map, lookup, insert, lookup-insert, lookup-insert_self, lookup-update_all, IsDistinct,
  insert-IsDistinct, update_all-IsDistinct,
}
use tinkercloud.Otp.{
  Challenge, Service, State, is_none, create, invalidate, invalidate_active, refused, consume,
  check_code, verify, request,
}

-- How the challenge stood that a verification redeems, and what it leaves.
pub record Redeemed {S : Type 0} (s : Service) (m m' : Map Challenge) (app email id code : Text)
    (now : ℕ) (create_session : Challenge → Option S) (session : S) (c : Challenge) : Type 0 where
  pub found : lookup id m ≡ some c
  pub app_matches : c.app_id ≡ app
  pub email_matches : c.email ≡ email
  pub unspent : c.consumed_at ≡ none
  pub valid : c.invalidated_at ≡ none
  pub unexpired : now < c.expires_at
  pub attempts_left : c.attempts < c.max_attempts
  pub code_matches : c.code_hash ≡ s.hash s.key id code
  pub made : create_session c ≡ some session
  pub spent : m' ≡ insert id (record c { consumed_at = some now }) m

refused_sound :
    (c : Challenge) (app email : Text) (now : ℕ)
    → refused c app email now ≡ false
    → (c.app_id ≡ app)
      × (c.email ≡ email)
      × (c.consumed_at ≡ none)
      × (c.invalidated_at ≡ none)
      × (now < c.expires_at)
      × (c.attempts < c.max_attempts)
unfolding refused
refused_sound c app email now h =
    ground (arith, text_eq_iff c.app_id app, text_eq_iff c.email email)

consume_missing :
    {S : Type 0} (m : Map Challenge) (app email id : Text) (now : ℕ) (fn : Challenge → Option S)
    → lookup id m ≡ none
    → consume m app email id now fn ≡ (m, none)
unfolding consume
consume_missing m app email id now fn e = rw (e, consume)

pub consume-refused :
    {S : Type 0} (m : Map Challenge) (app email id : Text) (now : ℕ) (fn : Challenge → Option S)
    (c : Challenge)
    → lookup id m ≡ some c
    → refused c app email now ≡ true
    → consume m app email id now fn ≡ (m, none)
unfolding consume
consume-refused m app email id now fn c e r = rw (e, consume) (rw r)

-- How one attempt leaves the store.
abbrev pub settle :
    {S : Type 0} → Map Challenge → Text → ℕ → Challenge → Option S → Map Challenge × Option S
settle m id now c none = (insert id (record c { attempts = c.attempts + 1 }) m, none)
settle m id now c (some session) = (insert id (record c { consumed_at = some now }) m, some session)

pub consume-settle :
    {S : Type 0} (m : Map Challenge) (app email id : Text) (now : ℕ) (fn : Challenge → Option S)
    (c : Challenge)
    → lookup id m ≡ some c
    → refused c app email now ≡ false
    → consume m app email id now fn ≡ settle m id now c (fn c)
unfolding consume
consume-settle m app email id now fn c e r = ground arith

settle_sound :
    {S : Type 0} (m m' : Map Challenge) (id : Text) (now : ℕ) (c : Challenge) (o : Option S)
    (session : S)
    → settle m id now c o ≡ (m', some session)
    → (o ≡ some session) × (m' ≡ insert id (record c { consumed_at = some now }) m)
settle_sound m m' id now c none session e = cc
settle_sound m m' id now c (some x) session e = ground arith

check_code_sound :
    {S : Type 0} (s : Service) (id code : Text) (create_session : Challenge → Option S)
    (c : Challenge) (session : S)
    → check_code s id code create_session c ≡ some session
    → (c.code_hash ≡ s.hash s.key id code) × (create_session c ≡ some session)
check_code_sound s id code create_session c session e =
    ground (arith, text_eq_iff c.code_hash (s.hash s.key id code))

verify-consume :
    {S : Type 0} (s : Service) (m m' : Map Challenge) (app email id code : Text) (now : ℕ)
    (create_session : Challenge → Option S) (session : S)
    → verify s m app email id code now create_session ≡ (m', some session)
    → consume m app email id now (check_code s id code create_session) ≡ (m', some session)
unfolding verify
verify-consume s m m' app email id code now create_session session e = ground arith

-- A successful verification is of a stored challenge of this app and email that is unspent,
-- unexpired and has attempts left, with the code that was hashed into it; it spends the challenge,
-- changes no other, and returns the session that was made for it.
pub verify-Redeemed :
    {S : Type 0} (s : Service) (m m' : Map Challenge) (app email id code : Text) (now : ℕ)
    (create_session : Challenge → Option S) (session : S)
    → verify s m app email id code now create_session ≡ (m', some session)
    → (c : Challenge) × Redeemed s m m' app email id code now create_session session c
verify-Redeemed s m m' app email id code now create_session session e =
    elim (Option-cases (lookup id m)) [
      | inl missing ↦ absurd (
          let f =
            consume_missing m app email id now (check_code s id code create_session) missing in
          ground (arith, f, e'))
      | inr (c, found) ↦ elim (Bool-cases (refused c app email now)) [
        | inl r ↦ absurd (
            let f =
              consume-refused m app email id now (check_code s id code create_session) c found r in
            ground (arith, f, e'))
        | inr r ↦
            let f =
              consume-settle m app email id now (check_code s id code create_session) c found r in
            let (made, spent) =
              settle_sound m m' id now c (check_code s id code create_session c) session
                (sym f ∙ e') in
            let (code_ok, session_ok) = check_code_sound s id code create_session c session made in
            let (a, b, d, g, h, k) = refused_sound c app email now r in
            (
              c,
              record {
                found = found;
                app_matches = a;
                email_matches = b;
                unspent = d;
                valid = g;
                unexpired = h;
                attempts_left = k;
                code_matches = code_ok;
                made = session_ok;
                spent = spent;
              },
            )
      ]
    ]
  where
    e' : consume m app email id now (check_code s id code create_session) ≡ (m', some session)
    e' = verify-consume s m m' app email id code now create_session session e

-- Any number of later calls on the store: verifications of whatever challenge, and requests whose
-- fresh ID is not `id`.
pub data Later (s : Service) (id : Text) (st : State) : State → Type 0 where
  now_here : Later s id st st
  verified :
      (u : State) (app email other code : Text) (now : ℕ) (create_session : Challenge → Option Text)
      → Later s id st u
      → Later s id st (record u {
        challenges = (verify s u.challenges app email other code now create_session).0;
      })
  requested :
      (u : State) (app email code fresh : Text) (eligible : Bool) (now : ℕ)
      → text_eq fresh id ≡ false
      → Later s id st u
      → Later s id st (request s u app email eligible now (some code) (some fresh)).0

-- The challenge `id` is there, and spent.
pub record Spent (id : Text) (m : Map Challenge) : Type 0 where
  pub distinct : IsDistinct m
  pub challenge : Challenge
  pub found : lookup id m ≡ some challenge
  pub consumed : is_none challenge.consumed_at ≡ false

refused_consumed :
    (c : Challenge) (app email : Text) (now : ℕ)
    → is_none c.consumed_at ≡ false
    → refused c app email now ≡ true
unfolding refused
refused_consumed c app email now h = ground arith

Spent-consume :
    {S : Type 0} (m : Map Challenge) (app email id : Text) (now : ℕ) (fn : Challenge → Option S)
    → Spent id m
    → consume m app email id now fn ≡ (m, none)
Spent-consume m app email id now fn p =
    consume-refused m app email id now fn p.challenge p.found
      (refused_consumed p.challenge app email now p.consumed)

Spent-verify :
    {S : Type 0} (s : Service) (m : Map Challenge) (app email id code : Text) (now : ℕ)
    (create_session : Challenge → Option S)
    → Spent id m
    → verify s m app email id code now create_session ≡ (m, none)
unfolding verify
Spent-verify s m app email id code now create_session p =
    ground (arith, Spent-consume m app email id now (check_code s id code create_session) p)

-- A verification of another challenge leaves this one as it is.
Spent-insert :
    (m : Map Challenge) (id other : Text) (c : Challenge)
    → text_eq other id ≡ false
    → Spent id m
    → Spent id (insert other c m)
Spent-insert m id other c n p = record {
  distinct = insert-IsDistinct other c m p.distinct;
  challenge = p.challenge;
  found = ground (arith, lookup-insert other id c m, p.found);
  consumed = p.consumed;
}

Spent-settle :
    {S : Type 0} (m : Map Challenge) (id other : Text) (now : ℕ) (c : Challenge) (o : Option S)
    → text_eq other id ≡ false
    → Spent id m
    → Spent id (settle m other now c o).0
Spent-settle m id other now c none n p = Spent-insert m id other _ n p
Spent-settle m id other now c (some x) n p = Spent-insert m id other _ n p

Spent-consume_other :
    {S : Type 0} (m : Map Challenge) (app email id other : Text) (now : ℕ)
    (fn : Challenge → Option S)
    → text_eq other id ≡ false
    → Spent id m
    → Spent id (consume m app email other now fn).0
Spent-consume_other m app email id other now fn n p = elim (Option-cases (lookup other m)) [
  | inl e ↦ rw (consume_missing m app email other now fn e) p
  | inr (c, e) ↦ elim (Bool-cases (refused c app email now)) [
    | inl r ↦ rw (consume-refused m app email other now fn c e r) p
    | inr r ↦
        rw (consume-settle m app email other now fn c e r)
          (Spent-settle m id other now c (fn c) n p)
  ]
]

Spent-verify_any :
    {S : Type 0} (s : Service) (m : Map Challenge) (app email id other code : Text) (now : ℕ)
    (create_session : Challenge → Option S)
    → Spent id m
    → Spent id (verify s m app email other code now create_session).0
unfolding verify
Spent-verify_any s m app email id other code now create_session p =
    elim (Bool-cases (text_eq other id)) [
      | inl same ↦
          rw
            ((text_eq_iff other id).0 same, Spent-verify s m app email id code now create_session p)
            p
      | inr n ↦ elim (Bool-cases (length s.key == 0)) [
        | inl k ↦ rw k p
        | inr k ↦ rw k (
            Spent-consume_other m app email id other now (check_code s other code create_session) n
              p)
      ]
    ]

Spent-invalidate :
    (m : Map Challenge) (app email id : Text) (now : ℕ)
    → Spent id m
    → Spent id (invalidate_active m app email now)
unfolding invalidate_active
Spent-invalidate m app email id now p = record {
  distinct = update_all-IsDistinct (invalidate app email now) m p.distinct;
  challenge = p.challenge;
  found =
      ground
        (arith, lookup-update_all (invalidate app email now) id m p.distinct, p.found, p.consumed);
  consumed = p.consumed;
}

Later-Spent :
    {s : Service} {id : Text} {st u : State}
    → Later s id st u
    → Spent id st.challenges
    → Spent id u.challenges
unfolding request create
Later-Spent now_here p = p
Later-Spent {s} {id} (verified u app email other code now create_session l) p =
    Spent-verify_any s u.challenges app email id other code now create_session (Later-Spent l p)
Later-Spent {s} {id} (requested u app email code fresh eligible now n l) p =
    let q : Spent id u.challenges = Later-Spent l p in
    elim (Bool-cases (length s.key == 0)) [
      | inl k ↦ rw k q
      | inr k ↦
          rw k (Spent-insert _ id fresh _ n (Spent-invalidate u.challenges app email id now q))
    ]

-- Once a challenge has been redeemed, and after any later verifications and any later requests that
-- draw another ID, no app, email or code redeems it again.
pub verify_once :
    {S : Type 0} (s : Service) (st u : State) (app email id code : Text) (now : ℕ)
    (create_session : Challenge → Option Text) (session : Text)
    → IsDistinct st.challenges
    → (verify s st.challenges app email id code now create_session).1 ≡ some session
    → Later s id
        (record st { challenges = (verify s st.challenges app email id code now create_session).0 })
        u
    → (app' email' code' : Text) (now' : ℕ) (create_session' : Challenge → Option S)
    → verify s u.challenges app' email' id code' now' create_session' ≡ (u.challenges, none)
verify_once s st u app email id code now create_session session d e l app' email' code' now'
      create_session' =
    let (c, r) =
      verify-Redeemed s st.challenges
        (verify s st.challenges app email id code now create_session).0 app email id code now
        create_session session (ground (arith, e)) in
    Spent-verify s u.challenges app' email' id code' now' create_session' (
      Later-Spent l (
        rw r.spent (record {
          distinct = insert-IsDistinct id (record c { consumed_at = some now }) st.challenges d;
          challenge = record c { consumed_at = some now };
          found = lookup-insert_self id (record c { consumed_at = some now }) st.challenges;
          consumed = refl;
        })))
