-- ===== src/GlobalIdentity/Logins.antt =====
-- internal/persistence/global_identity.go: a login keeps a revoked family revoked, when the family
-- that it starts is another.
use tinkercloud.Prelude.{
  ◌≡◌, ℕ, Bool, false, not, ◌&&◌, ◌||◌, ◌==◌, Option, none, some, List, ◌++◌, Text, text_eq, codes,
  if_cases, option_cases, length,
}
use tinkercloud.Prelude.Map.{lookup, has_key, is_some}
use tinkercloud.Identity.{normalize}
use tinkercloud.GlobalIdentity.Tables.{
  SessionRow, HandoffRow, ChildRow, ChallengeRow, Db, Error, identity_denied, otp_denied, replayed,
  corrupt, failed, Result, ok, err, policy_allows, find_row,
}
use tinkercloud.GlobalIdentity.{handoff, is_open, viewer_of}
use tinkercloud.GlobalIdentity.Sessions.{revoke_token, new_session, bound_session}
use tinkercloud.GlobalIdentity.Codes.{
  Hashes, Fresh, IssuedIdentity, verify_and_issue, open_challenge, spend_challenge,
  attempts_allowed, issue_identity, is_overtaken, bind_result, replace_identity, complete_login,
  replaces_identity, end_bound, end_presented, or_gone, is_pending, unless_error, complete_bound,
  end_found, verify_identity_otp, revoke_browser_binding, is_bound_to, request_identity_otp,
  create_challenge,
}
use tinkercloud.GlobalIdentity.Dead.{
  IsDead, ResultIsDead, undone, done, insert_session-IsDead, revoke_family-ResultIsDead,
}
use tinkercloud.GlobalIdentity.Revoked.{DbIsDead, revoke_token-ResultIsDead}

pub bind_result-IsDead :
    {A B : Type 0} (fam : Text) (r : Result (Db × A)) (f : Db × A → Result (Db × B))
    → ResultIsDead fam r
    → ((db : Db) (a : A) → IsDead fam db.sessions db.children → ResultIsDead fam (f (db, a)))
    → ResultIsDead fam (bind_result r f)
bind_result-IsDead fam (ok r) f (done d) k = k r.0 r.1 d
bind_result-IsDead fam (err e) f h k = undone

pub end_bound-ResultIsDead :
    (fam : Text) (db : Db) (bound : Option SessionRow) (now : ℕ)
    → IsDead fam db.sessions db.children
    → ResultIsDead fam (end_bound db bound now)
unfolding end_bound
end_bound-ResultIsDead fam db none now d = done d
end_bound-ResultIsDead fam db (some b) now d = revoke_family-ResultIsDead fam b.family now db d

pub end_presented-ResultIsDead :
    (x : Hashes) (fam : Text) (db : Db) (force : Bool) (old : Text) (now : ℕ)
    → IsDead fam db.sessions db.children
    → ResultIsDead fam (end_presented x db force old now)
unfolding end_presented
end_presented-ResultIsDead x fam db force old now d =
    if_cases P (force && not (length old == 0))
      (λ _.
        ended (revoke_token x.sha256 db old now)
          (revoke_token-ResultIsDead x.sha256 fam db old now d))
      (λ _. done d)
  where
    P : Result (Db × List ChildRow) → Type 0
    P = ResultIsDead fam

    ended : (r : Result (Db × List ChildRow)) → P r → P (or_gone db r)
    ended (ok r) h = h
    ended (err identity_denied) h = done d
    ended (err otp_denied) h = undone
    ended (err replayed) h = undone
    ended (err corrupt) h = undone
    ended (err failed) h = undone

issue_identity-ResultIsDead :
    (x : Hashes) (fam id email binding : Text) (now : ℕ) (fresh : Fresh) (refs : List ChildRow)
    (db : Db)
    → text_eq fresh.family fam ≡ false
    → IsDead fam db.sessions db.children
    → ResultIsDead fam (issue_identity x id email binding now fresh refs db)
unfolding issue_identity new_session
issue_identity-ResultIsDead x fam id email binding now fresh refs db h d =
    if_cases P (has_key fresh.id db.sessions) (λ _. undone)
      (λ n.
        if_cases P (not (is_some (find_row (is_pending id) db.handoffs))) (λ _. undone)
          (λ _. done (
            insert_session-IsDead fam fresh.id
              (new_session x.sha256 fresh.id email fresh.family fresh.token binding now) db.sessions
              db.children h n d)))
  where
    P : Result (Db × IssuedIdentity) → Type 0
    P = ResultIsDead fam

replace_identity-ResultIsDead :
    (x : Hashes) (fam id email binding old : Text) (now : ℕ) (fresh : Fresh) (force : Bool)
    (bound : Option SessionRow) (db : Db)
    → text_eq fresh.family fam ≡ false
    → IsDead fam db.sessions db.children
    → ResultIsDead fam (replace_identity x id email binding old now fresh force bound db)
unfolding replace_identity
replace_identity-ResultIsDead x fam id email binding old now fresh force bound db h d =
    bind_result-IsDead fam (end_bound db bound now) _ (end_bound-ResultIsDead fam db bound now d)
      (λ db₁ refs₁ d₁.
        bind_result-IsDead fam (end_presented x db₁ force old now) _
          (end_presented-ResultIsDead x fam db₁ force old now d₁)
          (λ db₂ refs₂ d₂.
            issue_identity-ResultIsDead x fam id email binding now fresh (refs₁ ++ refs₂) db₂ h d₂))

complete_login-ResultIsDead :
    (x : Hashes) (fam id email binding challenge old : Text) (now : ℕ) (fresh : Fresh) (db : Db)
    → text_eq fresh.family fam ≡ false
    → IsDead fam db.sessions db.children
    → ResultIsDead fam (complete_login x id email binding challenge old now fresh db)
unfolding complete_login
complete_login-ResultIsDead x fam id email binding challenge old now fresh db h d =
    option_cases P (handoff db id) (λ _. undone)
      (λ o _.
        if_cases P (not (is_open now o) || not (policy_allows db o.app (viewer_of email)))
          (λ _. undone)
          (λ _.
            if_cases P (not (is_bound_to binding o)) (λ _. undone)
              (λ _.
                option_cases P (lookup challenge db.challenges) (λ _. undone)
                  (λ c _. bound o c (bound_session db binding)))))
  where
    P : Result (Db × IssuedIdentity) → Type 0
    P = ResultIsDead fam

    replaced :
        (o : HandoffRow) (b : Option SessionRow) (e : Option Error)
        → P (unless_error e (replace_identity x id email binding old now fresh o.force_login b db))
    replaced o b none =
        replace_identity-ResultIsDead x fam id email binding old now fresh o.force_login b db h d
    replaced o b (some e) = undone

    bound :
        (o : HandoffRow) (c : ChallengeRow) (b : Result (Option SessionRow))
        → P (bind_result b (complete_bound x id email binding old now fresh db o c))
    bound o c (err e) = undone
    bound o c (ok b) =
        if_cases P (is_overtaken b c.created_at now) (λ _. undone)
          (λ _. replaced o b (replaces_identity x db o.force_login old now))

verify_and_issue-IsDead :
    {A : Type 0} (x : Hashes) (fam : Text) (db : Db) (app purpose email id code key : Text)
    (now limit : ℕ) (issue : Db → Result (Db × A))
    → IsDead fam db.sessions db.children
    → ResultIsDead fam (issue db)
    → DbIsDead fam (verify_and_issue x db app purpose email id code key now limit issue)
unfolding verify_and_issue spend_challenge
verify_and_issue-IsDead {A} x fam db app purpose email id code key now limit issue d h =
    option_cases P (open_challenge db app purpose email id now (attempts_allowed limit)) (λ _. d)
      (λ c _.
        if_cases P (not (text_eq c.code_hash (x.code_hash key id code))) (λ _. d)
          (λ _. spent (issue db) h))
  where
    P : Db × Result A → Type 0
    P r = IsDead fam r.0.sessions r.0.children

    spent : (r : Result (Db × A)) → ResultIsDead fam r → P (spend_challenge id now db r)
    spent (err e) h = d
    spent (ok r) (done h) = h

pub verify_identity_otp-IsDead :
    (x : Hashes) (fam : Text) (db : Db) (id browser email challenge code old key : Text)
    (now limit : ℕ) (fresh : Fresh)
    → text_eq fresh.family fam ≡ false
    → IsDead fam db.sessions db.children
    → DbIsDead fam
        (verify_identity_otp x db id browser email challenge code old key now limit fresh)
unfolding verify_identity_otp
verify_identity_otp-IsDead x fam db id browser raw_email challenge code old key now limit fresh h
      d =
    if_cases P (length browser == 0) (λ _. d)
      (λ _.
        option_cases P (normalize raw_email) (λ _. d)
          (λ email _.
            option_cases P (lookup id db.handoffs) (λ _. d)
              (λ o _.
                verify_and_issue-IsDead x fam db o.app (codes "viewer") email challenge code key now
                  limit (complete_login x id email (x.sha256 browser) challenge old now fresh) d
                  (complete_login-ResultIsDead x fam id email (x.sha256 browser) challenge old now
                    fresh db h d))))
  where
    P : Db × Result IssuedIdentity → Type 0
    P r = IsDead fam r.0.sessions r.0.children

pub revoke_browser_binding-ResultIsDead :
    (x : Hashes) (fam : Text) (db : Db) (browser : Text) (now : ℕ)
    → IsDead fam db.sessions db.children
    → ResultIsDead fam (revoke_browser_binding x db browser now)
unfolding revoke_browser_binding
revoke_browser_binding-ResultIsDead x fam db browser now d =
    if_cases P (length browser == 0) (λ _. undone)
      (λ _. found (bound_session db (x.sha256 browser)))
  where
    P : Result (Db × List ChildRow) → Type 0
    P = ResultIsDead fam

    found : (b : Result (Option SessionRow)) → P (bind_result b (end_found db now))
    found (err e) = undone
    found (ok none) = undone
    found (ok (some b)) = revoke_family-ResultIsDead fam b.family now db d

pub request_identity_otp-IsDead :
    (x : Hashes) (fam : Text) (db : Db) (id browser email key : Text) (now ttl : ℕ)
    (random_id code : Text)
    → IsDead fam db.sessions db.children
    → DbIsDead fam (request_identity_otp x db id browser email key now ttl random_id code)
unfolding request_identity_otp create_challenge
request_identity_otp-IsDead x fam db id browser raw_email key now ttl random_id code d =
    if_cases P (length browser == 0) (λ _. d)
      (λ _.
        option_cases P (normalize raw_email) (λ _. d)
          (λ email _.
            option_cases P (handoff db id) (λ _. d)
              (λ h _.
                if_cases P (not (is_open now h) || is_some h.authorized_at) (λ _. d)
                  (λ _.
                    if_cases P (is_some h.binding && not (is_bound_to (x.sha256 browser) h))
                      (λ _. d)
                      (λ _. if_cases P (has_key random_id db.challenges) (λ _. d) (λ _. d))))))
  where
    P : Db × Result (Option ChallengeRow) → Type 0
    P r = IsDead fam r.0.sessions r.0.children
