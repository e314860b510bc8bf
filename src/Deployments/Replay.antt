-- ===== src/Deployments/Replay.antt =====
-- internal/deployments/service.go: what a successful `Activate` has checked and done, and what
-- repeating it does.
use tinkercloud.Prelude.{
  ◌≡◌, refl, inl, inr, Bool, true, false, none, some, arith, Text, text_eq_iff, text_eq_refl,
  length, Option-cases, ◌==◌,
}
use tinkercloud.Prelude.Map.{insert, lookup-insert, lookup-insert_self}
use tinkercloud.Releases.{active, verified, superseded}
use tinkercloud.Deployments.Repository.{
  Record, Repo, Outcome, ok, err, Error, get, active_record, commit_activation, activation_replay,
}
use tinkercloud.Deployments.{
  Env, Actor, activate, activation_record, activate_found, commit, run_gates,
}
use tinkercloud.Deployments.Invariant.{IsConsistent, commit-IsConsistent, active_record-cases}

-- The actor owns the record.
pub record IsOwned (repo : Repo) (a : Actor) (id : Text) (r : Record) : Type 0 where
  pub found : get repo id ≡ some r
  pub owner : r.owner_id ≡ a.id
  pub app : (length r.app_id == 0) ≡ false
  pub live : a.active ≡ true

pub record GatesPassed (env : Env) (r : Record) : Type 0 where
  pub policy : env.policy r ≡ true
  pub certificate : env.certificate r ≡ true
  pub probe : env.probe r ≡ true
  pub verified_state : r.state ≡ verified

run_gates_sound : (env : Env) (r : Record) → run_gates env r ≡ none → GatesPassed env r
unfolding run_gates
run_gates_sound env r e = ground arith

activation_record_sound :
    (repo : Repo) (a : Actor) (id : Text) (r : Record)
    → activation_record repo a id ≡ ok r
    → IsOwned repo a id r
unfolding activation_record
activation_record_sound repo a id r e = elim (Option-cases (get repo id)) [
  | inl none_found ↦ ground arith
  | inr (q, f) ↦ ground (arith, text_eq_iff q.owner_id a.id)
]

-- The ways in which `activate` succeeds: a replay, which changes nothing, and a commit.
pub data Success (env : Env) (repo : Repo) (request_id : Text) (r : Record) (repo' : Repo)
    : Type 0 where
  replayed :
      activation_replay repo r request_id ≡ ok true
      → repo' ≡ repo
      → Success env repo request_id r repo'
  committed :
      activation_replay repo r request_id ≡ ok false
      → GatesPassed env r
      → commit_activation repo r (active_record repo r.app_id) request_id ≡ ok repo'
      → Success env repo request_id r repo'

commit_sound :
    (env : Env) (repo repo' : Repo) (r : Record) (request_id : Text)
    → commit env repo r request_id ≡ (repo', ok tt)
    → (run_gates env r ≡ none)
      × (commit_activation repo r (active_record repo r.app_id) request_id ≡ ok repo')
unfolding commit
commit_sound env repo repo' r request_id e = ground arith

found_sound :
    (env : Env) (repo repo' : Repo) (r : Record) (request_id : Text) (o : Outcome Bool)
    → activation_replay repo r request_id ≡ o
    → activate_found env repo request_id (ok r) ≡ (repo', ok tt)
    → Success env repo request_id r repo'
unfolding activate_found
found_sound env repo repo' r request_id (err x) o e = ground arith
found_sound env repo repo' r request_id (ok true) o e = replayed o (ground arith)
found_sound env repo repo' r request_id (ok false) o e =
    let (gates, done) = commit_sound env repo repo' r request_id (ground arith) in
    committed o (run_gates_sound env r gates) done

abbrev pub Activated : Env → Repo → Actor → Text → Text → Repo → Type 0
Activated env repo a id request_id repo' =
    (r : Record) × IsOwned repo a id r × Success env repo request_id r repo'

outcome_sound :
    (env : Env) (repo repo' : Repo) (a : Actor) (id request_id : Text) (o : Outcome Record)
    → activation_record repo a id ≡ o
    → activate_found env repo request_id o ≡ (repo', ok tt)
    → Activated env repo a id request_id repo'
unfolding activate_found
outcome_sound env repo repo' a id request_id (err x) o e = ground arith
outcome_sound env repo repo' a id request_id (ok r) o e =
    (r, activation_record_sound repo a id r o, found_sound env repo repo' r request_id _ refl e)

-- A successful activation is by the owner of the deployment; it either replays a recorded one, and
-- changes nothing, or commits a verified deployment whose three gates all passed.
pub activate_sound :
    (env : Env) (repo repo' : Repo) (a : Actor) (id request_id : Text)
    → activate env repo a id request_id ≡ (repo', ok tt)
    → Activated env repo a id request_id repo'
unfolding activate
activate_sound env repo repo' a id request_id e =
    outcome_sound env repo repo' a id request_id (activation_record repo a id) refl (ground arith)

-- What a commit leaves behind: the deployment is active and current, and the request is recorded.
commit-after :
    (repo repo' : Repo) (r : Record) (id request_id : Text)
    → IsConsistent repo
    → get repo id ≡ some r
    → r.state ≡ verified
    → commit_activation repo r (active_record repo r.app_id) request_id ≡ ok repo'
    → (get repo' id ≡ some (record r { state = active }))
      × (activation_replay repo' (record r { state = active }) request_id ≡ ok true)
unfolding commit_activation activation_replay get
commit-after repo repo' r id request_id c f v e = elim (active_record-cases repo r.app_id c) [
  | inl (none_active, free) ↦ (
    ground
        (arith, c.ids id r f, lookup-insert_self r.id (record r { state = active }) repo.records),
    ground (
      arith,
      lookup-insert_self request_id r.id repo.activation_audits,
      lookup-insert_self r.app_id r.id repo.current,
      text_eq_refl r.id,
    ),
  )
  | inr (o, found_old, held, g, a, p) ↦ (
    ground (
      arith,
      c.ids id r f,
      text_eq_iff o.id r.id,
      lookup-insert_self r.id (record r { state = active }) repo.records,
      lookup-insert o.id r.id (record o { state = superseded })
          (insert r.id (record r { state = active }) repo.records),
    ),
    ground (
      arith,
      lookup-insert_self request_id r.id repo.activation_audits,
      lookup-insert_self r.app_id r.id repo.current,
      text_eq_refl r.id,
    ),
  )
]

activate_known :
    (env : Env) (repo : Repo) (a : Actor) (id request_id : Text) (r : Record)
    → (length request_id == 0) ≡ false
    → IsOwned repo a id r
    → activation_replay repo r request_id ≡ ok true
    → activate env repo a id request_id ≡ (repo, ok tt)
unfolding activate
activate_known env repo a id request_id r n w e =
    ground (arith, w.found, w.owner, w.app, w.live, text_eq_iff r.owner_id a.id)

activate_named :
    (env : Env) (repo repo' : Repo) (a : Actor) (id request_id : Text)
    → activate env repo a id request_id ≡ (repo', ok tt)
    → (length request_id == 0) ≡ false
unfolding activate
activate_named env repo repo' a id request_id e = ground arith

repeat-Success :
    (env env' : Env) (repo repo' : Repo) (a : Actor) (id request_id : Text) (r : Record)
    → IsConsistent repo
    → (length request_id == 0) ≡ false
    → IsOwned repo a id r
    → Success env repo request_id r repo'
    → activate env' repo' a id request_id ≡ (repo', ok tt)
repeat-Success env env' repo repo' a id request_id r c n w (replayed e same) =
    rw same (activate_known env' repo a id request_id r n w e)
repeat-Success env env' repo repo' a id request_id r c n w (committed e g done) =
    let (found, again) = commit-after repo repo' r id request_id c w.found g.verified_state done in
    activate_known env' repo' a id request_id (record r { state = active }) n
      (record { found = found; owner = w.owner; app = w.app; live = w.live }) again

-- In a consistent repository, repeating a successful activation with the same request succeeds and
-- changes nothing, whatever the gates say by then.
pub activate_repeat :
    (env env' : Env) (repo repo' : Repo) (a : Actor) (id request_id : Text)
    → IsConsistent repo
    → activate env repo a id request_id ≡ (repo', ok tt)
    → activate env' repo' a id request_id ≡ (repo', ok tt)
activate_repeat env env' repo repo' a id request_id c e =
    let (r, w, s) = activate_sound env repo repo' a id request_id e in
    repeat-Success env env' repo repo' a id request_id r c
      (activate_named env repo repo' a id request_id e) w s

Success-IsConsistent :
    {env : Env} {repo : Repo} {request_id : Text} {r : Record} {repo' : Repo} (id : Text)
    → IsConsistent repo
    → get repo id ≡ some r
    → Success env repo request_id r repo'
    → IsConsistent repo'
unfolding get
Success-IsConsistent id c f (replayed e same) = rw same c
Success-IsConsistent {repo} {request_id} {r} id c f (committed e g done) =
    commit-IsConsistent repo r request_id c (ground (arith, c.ids id r f)) g.verified_state done

-- A failed activation changes nothing.
activate_error_unchanged :
    (env : Env) (repo : Repo) (a : Actor) (id request_id : Text) {x : Error}
    → (activate env repo a id request_id).1 ≡ err x
    → (activate env repo a id request_id).0 ≡ repo
unfolding activate
activate_error_unchanged env repo a id request_id e = ground arith

-- An activation, successful or not, keeps the repository consistent: the deployments in state
-- `active` are exactly the current ones of their apps.
pub activate-IsConsistent :
    (env : Env) (repo : Repo) (a : Actor) (id request_id : Text)
    → IsConsistent repo
    → IsConsistent (activate env repo a id request_id).0
activate-IsConsistent env repo a id request_id c = outcome (activate env repo a id request_id) refl
  where
    outcome :
        (o : Repo × Outcome (Unit {0}))
        → activate env repo a id request_id ≡ o
        → IsConsistent (activate env repo a id request_id).0
    outcome (repo', ok tt) e =
        let (r, w, s) = activate_sound env repo repo' a id request_id e in
        rw e (Success-IsConsistent id c w.found s)
    outcome (repo', err x) e =
        rw (activate_error_unchanged env repo a id request_id {x = x} (rw e)) c
