-- ===== src/Deployments.antt =====
-- internal/deployments/service.go: the deployment workflow over the in-memory
-- repository. A method of the repository takes its state and returns the new one; the lock of an
-- app makes each operation one step. The files that an upload touches are seen through the results
-- of the calls that handle them (`Disk`).
pub mod Repository
pub mod Invariant
pub mod Replay
pub mod Uploading
pub mod Recovery
use tinkercloud.Prelude.{
  ℕ, Bool, true, false, not, ◌&&◌, ◌||◌, Option, none, some, List, [], ◌∷◌, Text, codes, text_eq,
  length, leb, ltb, ◌==◌, if◌then◌else◌,
}
use tinkercloud.Prelude.Map.{Map, lookup, insert, delete}
use tinkercloud.AppNamespace
use tinkercloud.Releases.{
  State, uploading, uploaded, validating, staged, verified, active, superseded, rejected, failed,
  unknown, allowed, is_verified, State-discrete,
}
use Repository.{
  Record, Manifest, File, Repo, Error, denied, rate_limited, probe_failed, commit_failed,
  policy_not_ready, certificate_not_ready, candidate_probe_failed, gate, transition, copy_failed,
  unsafe_archive, release_invalid, disk, Outcome, ok, err, create, get, active_record,
  commit_activation, activation_replay, fail, apply_recovery,
}
use mathlib.Core.Logic.{ite}

pub record Actor : Type 0 where
  pub id : Text
  pub active : Bool

-- What `Service` takes from its adapters: the three gates, the write gate's answer to a
-- deployment (`none` allows it), the attempts of a deployer in the last hour, and their limit.
pub record Env : Type 0 where
  pub policy : Record → Bool
  pub certificate : Record → Bool
  pub probe : Record → Bool
  pub allow_write : Option Error
  pub attempts : Text → Option ℕ
  pub attempt_limit : ℕ

blank_manifest : Manifest
blank_manifest = record {
  version = 0;
  name = [];
  description = [];
  tags = [];
  access_mode = [];
  indexing = false;
  emails = [];
  domains = [];
  kv = false;
  blobs = false;
  realtime = false;
  spa_fallback = [];
  build_output = [];
}

abbrev too_many : ℕ → Option ℕ → Option Error
too_many limit none = some denied
too_many limit (some count) = if leb limit count then some rate_limited else none

over_limit : Env → Text → Option Error
over_limit env actor =
    if env.attempt_limit == 0 then none else too_many env.attempt_limit (env.attempts actor)

new_record : Actor → Text → Text → Text → Text → Bool → Record
unfolding blank_manifest
new_record a app slug id key acknowledged = record {
  id = id;
  app_id = app;
  release_hash = [];
  state = uploading;
  owner_id = a.id;
  app_slug = slug;
  idempotency_key = key;
  staging = [];
  archive_hash = [];
  manifest = blank_manifest;
  files = [];
  public_acknowledged = acknowledged;
  recovery_corrupt = false;
}

unfoldable pub service_create :
    Env → Repo → Actor → Text → Text → Text → Text → Bool → Repo × Outcome Record
unfolding over_limit new_record
service_create env repo a app slug id key acknowledged =
    if not a.active || length a.id == 0 || length key == 0 || not (AppNamespace.valid slug)
    then (repo, err denied)
    else elim env.allow_write [
      | some e ↦ (repo, err e)
      | none ↦ elim (over_limit env a.id) [
        | some e ↦ (repo, err e)
        | none ↦
            let r = new_record a app slug id key acknowledged in
            elim (create repo r) [ ok repo' ↦ (repo', ok r) | err e ↦ (repo, err e) ]
      ]
    ]

-- `activationRecord`: the record is read twice, the second time under the lock of its app. No other
-- operation runs between the two here, so both reads are of the same state.
activation_record : Repo → Actor → Text → Outcome Record
activation_record repo a id = elim (get repo id) [
  | none ↦ err denied
  | some r ↦
      if not (text_eq r.owner_id a.id) || length r.app_id == 0 || not a.active
      then err denied
      else ok r
]

-- The gates in their order, then `CanActivate` and the commit.
run_gates : Env → Record → Option Error
run_gates env r =
    if not (env.policy r)
    then some policy_not_ready
    else if not (env.certificate r)
    then some certificate_not_ready
    else if not (env.probe r)
    then some candidate_probe_failed
    else if not (is_verified r.state)
    then some commit_failed
    else none

commit : Env → Repo → Record → Text → Repo × Outcome (Unit {0})
unfolding run_gates
commit env repo r request_id =
    let old = active_record repo r.app_id in
    elim (run_gates env r) [
      | some e ↦ (repo, err e)
      | none ↦ elim (commit_activation repo r old request_id) [
        | ok repo' ↦ (repo', ok tt)
        | err e ↦ (repo, err commit_failed)
      ]
    ]

activate_found : Env → Repo → Text → Outcome Record → Repo × Outcome (Unit {0})
activate_found env repo request_id (err e) = (repo, err e)
activate_found env repo request_id (ok r) = elim (activation_replay repo r request_id) [
  | err e ↦ (repo, err commit_failed)
  | ok true ↦ (repo, ok tt)
  | ok false ↦ commit env repo r request_id
]

unfoldable pub activate : Env → Repo → Actor → Text → Text → Repo × Outcome (Unit {0})
unfolding activation_record activate_found commit
activate env repo a id request_id =
    if length request_id == 0
    then (repo, err denied)
    else activate_found env repo request_id (activation_record repo a id)

replay_found : Repo → Text → Outcome Record → Outcome Bool
replay_found repo request_id (err e) = err e
replay_found repo request_id (ok r) = activation_replay repo r request_id

-- `Service.ActivationReplay`.
unfoldable pub service_replay : Repo → Actor → Text → Text → Outcome Bool
unfolding activation_record replay_found
service_replay repo a id request_id =
    if length request_id == 0
    then err denied
    else replay_found repo request_id (activation_record repo a id)

abbrev classify : State → Bool → State
classify uploading b = failed
classify uploaded b = failed
classify validating b = failed
classify staged b = failed
classify verified b = if b then verified else failed
classify active b = if b then active else failed
classify superseded b = if b then superseded else failed
classify rejected b = rejected
classify failed b = failed
classify (unknown t) b = failed

-- `Recover`: what becomes of a record that a restart finds.
unfoldable pub recover : Record → Bool → State
recover r release_exists = if r.recovery_corrupt then failed else classify r.state release_exists

-- The loop of `RecoverStartup`, over the records that were listed at its start.
unfoldable pub recover_all : (Record → Bool) → List Record → Repo → Outcome Repo
unfolding recover
recover_all evidence [] repo = ok repo
recover_all evidence (r ∷ rs) repo =
    let next = recover r (evidence r) in
    let rest = λ (repo : Repo). recover_all evidence rs repo in
    ite (State-discrete next r.state) (rest repo)
      (elim (apply_recovery repo r.id next) [ ok repo' ↦ rest repo' | err e ↦ err e ])

-- What one upload gets from the calls that handle its files: the staging directory's path and
-- whether it could be made, the file in it, `uploads.Copy` (the hash of the bytes), closing it,
-- opening it again, extracting it (`none` is success), `ValidateRelease` at the app's slug, and
-- `Finalize` at the app's ID (hash and files).
pub record Disk : Type 0 where
  pub staging_dir : Text
  pub make_staging : Bool
  pub make_file : Bool
  pub copy : Outcome Text
  pub close_file : Bool
  pub open_file : Bool
  pub extract : Option Error
  pub validate : Text → Option Manifest
  pub finalize : Text → Option (Text × List File)

-- `Transition`, the new state, and `Repo.Create`.
advance : Repo → Record → State → Outcome (Repo × Record)
advance repo r next =
    let r' : Record = record r { state = next } in
    if not (allowed r.state next)
    then err transition
    else elim (create repo r') [ ok repo' ↦ ok (repo', r') | err e ↦ err e ]

-- `s.reject`, whose error every caller drops.
reject : Repo → Record → Repo
unfolding advance
reject repo r = elim (advance repo r rejected) [ ok p ↦ p.0 | err e ↦ repo ]

upload_verified : Repo → Record → Text → List File → Repo × Outcome (Unit {0})
unfolding advance
upload_verified repo r hash files =
    elim (advance repo (record r { release_hash = hash; files = files }) verified) [
      | ok p ↦ (p.0, ok tt)
      | err e ↦ (repo, err e)
    ]

upload_finalized : Repo → Record → Option (Text × List File) → Repo × Outcome (Unit {0})
unfolding upload_verified
upload_finalized repo r none = (fail repo r.id, err disk)
upload_finalized repo r (some (hash, files)) = upload_verified repo r hash files

upload_stage : Disk → Repo → Record → Manifest → Repo × Outcome (Unit {0})
unfolding advance upload_finalized
upload_stage d repo r m = elim (advance repo (record r { manifest = m }) staged) [
  | err e ↦ (repo, err e)
  | ok p ↦ upload_finalized p.0 (record p.1 { staging = d.staging_dir }) (d.finalize r.app_id)
]

upload_validated : Disk → Repo → Record → Option Manifest → Repo × Outcome (Unit {0})
unfolding reject upload_stage
upload_validated d repo r none = (reject repo r, err release_invalid)
upload_validated d repo r (some m) = upload_stage d repo r m

upload_extracted : Disk → Repo → Record → Option Error → Repo × Outcome (Unit {0})
unfolding reject upload_validated
upload_extracted d repo r (some e) = (reject repo r, err e)
upload_extracted d repo r none = upload_validated d repo r (d.validate r.app_slug)

upload_open : Disk → Repo → Record → Repo × Outcome (Unit {0})
unfolding upload_extracted
upload_open d repo r =
    if not d.open_file then (repo, err disk) else upload_extracted d repo r d.extract

upload_store : Disk → Repo → Record → Text → Repo × Outcome (Unit {0})
unfolding advance upload_open
upload_store d repo r hash = elim (advance repo (record r { archive_hash = hash }) uploaded) [
  | err e ↦ (repo, err e)
  | ok p ↦ elim (advance p.0 p.1 validating) [ err e ↦ (p.0, err e) | ok q ↦ upload_open d q.0 q.1 ]
]

abbrev is_unsafe : Error → Bool
is_unsafe unsafe_archive = true
is_unsafe _ = false

unfoldable pub upload_copied : Disk → Repo → Record → Outcome Text → Repo × Outcome (Unit {0})
unfolding reject upload_store
upload_copied d repo r (err e) = (if is_unsafe e then reject repo r else fail repo r.id, err e)
upload_copied d repo r (ok hash) =
    if not d.close_file then (repo, err disk) else upload_store d repo r hash

abbrev pub is_uploading : State → Bool
is_uploading uploading = true
is_uploading _ = false

abbrev known_type : Text → Bool
known_type t = text_eq t (codes "application/gzip") || text_eq t (codes "application/zip")

upload_record : Disk → Repo → Actor → Text → Record → Repo × Outcome (Unit {0})
upload_record d repo a content_type r =
    if not (text_eq r.owner_id a.id) || not a.active
    then (repo, err denied)
    else if not (is_uploading r.state)
    then (repo, err transition)
    else if not d.make_staging
    then (repo, err disk)
    else if not (known_type content_type)
    then (repo, err denied)
    else if not d.make_file
    then (repo, err disk)
    else upload_copied d repo r d.copy

unfoldable pub upload : Disk → Repo → Actor → Text → Text → Repo × Outcome (Unit {0})
unfolding upload_record
upload d repo a id content_type = elim (get repo id) [
  | none ↦ (repo, err denied)
  | some r ↦ upload_record d repo a content_type r
]
