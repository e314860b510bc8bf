-- ===== src/Tests/Deployments.antt =====
-- internal/deployments/service.go: instances.
use tinkercloud.Prelude.{◌≡◌, refl, arith, true, false, none, some, [], ◌∷◌, codes, text_eq}
use tinkercloud.Prelude.Map.{lookup, insert, has_key}
use tinkercloud.Releases.{uploading, verified, active}
use tinkercloud.Deployments.{Actor, Env, Disk, activate, upload, recover_all}
use tinkercloud.Deployments.Repository.{
  Repo, Record, Manifest, ok, get, commit_activation, activation_replay, active_record,
}
use tinkercloud.Deployments.Invariant.{IsConsistent, put-IsConsistent}
use tinkercloud.Deployments.Replay.{
  Activated, activate_sound, activate_repeat, activate-IsConsistent,
}
use tinkercloud.Deployments.Uploading.{Uploaded, upload-Uploaded}
use tinkercloud.Deployments.Recovery.{recover_all-IsConsistent}

abbrev owner : Actor
owner = record { id = codes "owner"; active = true }

abbrev ready : Env
ready = record {
  policy = λ r. true;
  certificate = λ r. true;
  probe = λ r. true;
  allow_write = none;
  attempts = λ a. some 0;
  attempt_limit = 10;
}

abbrev manifest : Manifest
manifest = record {
  version = 1;
  name = codes "demo";
  description = [];
  tags = [];
  access_mode = codes "private";
  indexing = false;
  emails = [];
  domains = [];
  kv = false;
  blobs = false;
  realtime = false;
  spa_fallback = [];
  build_output = codes "dist";
}

abbrev new_deployment : Record
new_deployment = record {
  id = codes "d";
  app_id = codes "app";
  release_hash = [];
  state = uploading;
  owner_id = codes "owner";
  app_slug = codes "demo";
  idempotency_key = codes "k";
  staging = [];
  archive_hash = [];
  manifest = manifest;
  files = [];
  public_acknowledged = false;
  recovery_corrupt = false;
}

abbrev candidate : Record
candidate = record new_deployment { state = verified }

abbrev empty : Repo
empty = record { records = []; current = []; fail_commit = none; activation_audits = [] }

abbrev one_new : Repo
one_new = record empty { records = (codes "d", new_deployment) ∷ [] }

abbrev one_verified : Repo
one_verified = record empty { records = (codes "d", candidate) ∷ [] }

abbrev one_active : Repo
one_active = record {
  records = (codes "d", record candidate { state = active }) ∷ [];
  current = (codes "app", codes "d") ∷ [];
  fail_commit = none;
  activation_audits = (codes "r", codes "d") ∷ [];
}

empty-IsConsistent : IsConsistent empty
unfolding lookup
empty-IsConsistent = record {
  ids = λ id r e. ground arith;
  current = λ a i e. ground arith;
  unique = λ i r e a. ground arith;
}

one_new-IsConsistent : IsConsistent one_new
unfolding insert lookup
one_new-IsConsistent =
    put-IsConsistent empty new_deployment empty-IsConsistent (omega arith) (λ q e. ground arith)
      (λ e. ground arith)

one_verified-IsConsistent : IsConsistent one_verified
unfolding insert lookup
one_verified-IsConsistent =
    put-IsConsistent empty candidate empty-IsConsistent (omega arith) (λ q e. ground arith)
      (λ e. ground arith)

activated : activate ready one_verified owner (codes "d") (codes "r") ≡ (one_active, ok tt)
unfolding activate get lookup text_eq activation_replay commit_activation active_record insert
activated = refl

activate-IsConsistent_example :
    IsConsistent (activate ready one_verified owner (codes "d") (codes "r")).0
activate-IsConsistent_example =
    activate-IsConsistent ready one_verified owner (codes "d") (codes "r") one_verified-IsConsistent

activate_sound_example : Activated ready one_verified owner (codes "d") (codes "r") one_active
activate_sound_example =
    activate_sound ready one_verified one_active owner (codes "d") (codes "r") activated

activate_repeat_example :
    activate (record ready { probe = λ r. false }) one_active owner (codes "d") (codes "r")
    ≡ (one_active, ok tt)
activate_repeat_example =
    activate_repeat ready (record ready { probe = λ r. false }) one_verified one_active owner
      (codes "d") (codes "r") one_verified-IsConsistent activated

abbrev good_disk : Disk
good_disk = record {
  staging_dir = codes "staging-1";
  make_staging = true;
  make_file = true;
  copy = ok (codes "hash");
  close_file = true;
  open_file = true;
  extract = none;
  validate = λ slug. some manifest;
  finalize = λ app. some (codes "release", []);
}

upload-Uploaded_example :
    Uploaded one_new
      (codes "d")
      (upload good_disk one_new owner (codes "d") (codes "application/zip")).0
unfolding get lookup text_eq
upload-Uploaded_example =
    upload-Uploaded good_disk one_new owner (codes "d") (codes "application/zip") new_deployment
      one_new-IsConsistent refl refl

recover_all-IsConsistent_example :
    (m' : Repo) × (recover_all (λ r. false) (candidate ∷ []) one_verified ≡ ok m') × IsConsistent m'
unfolding lookup text_eq has_key
recover_all-IsConsistent_example =
    recover_all-IsConsistent (λ r. false) (candidate ∷ []) one_verified one_verified-IsConsistent
      refl
