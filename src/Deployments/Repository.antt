-- ===== src/Deployments/Repository.antt =====
-- internal/deployments/service.go: the records and `MemoryRepository`.
use tinkercloud.Prelude.{
  ℕ, ◌≡◌, refl, ◌⊎◌, inl, inr, Bool, true, false, not, ◌&&◌, ◌||◌, Option, none, some, List, [],
  Text, text_eq, length, ◌==◌, if◌then◌else◌,
}
use tinkercloud.Prelude.Map.{Map, lookup, insert, delete}
use tinkercloud.Releases.{State, active, superseded, failed, is_active}

-- internal/releases/manifest.go, the stored metadata of a release.
pub record Manifest : Type 0 where
  pub version : ℕ
  pub name : Text
  pub description : Text
  pub tags : List Text
  pub access_mode : Text
  pub indexing : Bool
  pub emails : List Text
  pub domains : List Text
  pub kv : Bool
  pub blobs : Bool
  pub realtime : Bool
  pub spa_fallback : Text
  pub build_output : Text

-- internal/releases/filesystem.go.
pub record File : Type 0 where
  pub path : Text
  pub hash : Text
  pub size : ℕ

-- The embedded `releases.Deployment` stands as its four fields.
pub record Record : Type 0 where
  pub id : Text
  pub app_id : Text
  pub release_hash : Text
  pub state : State
  pub owner_id : Text
  pub app_slug : Text
  pub idempotency_key : Text
  pub staging : Text
  pub archive_hash : Text
  pub manifest : Manifest
  pub files : List File
  pub public_acknowledged : Bool
  pub recovery_corrupt : Bool

pub data Error : Type 0 where
  denied idempotency probe_failed rate_limited replay gate not_exist transition : Error
  policy_not_ready certificate_not_ready candidate_probe_failed commit_failed : Error
  unsafe_archive copy_failed release_invalid disk : Error

pub data Outcome {ℓ} (A : Type ℓ) : Type ℓ where
  ok : A → Outcome A
  err : Error → Outcome A

pub Outcome-cases {ℓ} :
    {A : Type ℓ} (o : Outcome A) → ((x : Error) × (o ≡ err x)) ⊎ ((a : A) × (o ≡ ok a))
Outcome-cases (ok a) = inr (a, refl)
Outcome-cases (err x) = inl (x, refl)

pub record Repo : Type 0 where
  pub records : Map Record
  pub current : Map Text
  pub fail_commit : Option Error
  pub activation_audits : Map Text

-- `m[k]` of a map of strings.
abbrev pub text_or_empty : Option Text → Text
text_or_empty none = []
text_or_empty (some t) = t

abbrev same_key : Option Record → Text → Bool
same_key none key = true
same_key (some old) key = text_eq old.idempotency_key key

unfoldable pub create : Repo → Record → Outcome Repo
create m r =
    if not (same_key (lookup r.id m.records) r.idempotency_key)
    then err idempotency
    else ok (record m { records = insert r.id r m.records })

unfoldable pub get : Repo → Text → Option Record
get m id = lookup id m.records

-- `none` where no deployment is current. A current ID always has a record (`IsConsistent`); the
-- source would return the zero record for one that has none.
unfoldable pub active_record : Repo → Text → Option Record
active_record m app =
    let id = text_or_empty (lookup app m.current) in
    if length id == 0 then none else lookup id m.records

supersede : Option Record → Map Record → Map Record
supersede none records = records
supersede (some old) records = insert old.id (record old { state = superseded }) records

unfoldable pub commit_activation : Repo → Record → Option Record → Text → Outcome Repo
unfolding supersede
commit_activation m next old request_id = elim m.fail_commit [
  | some e ↦ err e
  | none ↦ ok (record m {
    records = supersede old (insert next.id (record next { state = active }) m.records);
    current = insert next.app_id next.id m.current;
    activation_audits = insert request_id next.id m.activation_audits;
  })
]

unfoldable pub activation_replay : Repo → Record → Text → Outcome Bool
activation_replay m next request_id = elim (lookup request_id m.activation_audits) [
  | none ↦ ok false
  | some target ↦
      if not (text_eq target next.id)
        || not (is_active next.state)
        || not (text_eq (text_or_empty (lookup next.app_id m.current)) next.id)
      then err replay
      else ok true
]

fail_record : Text → Map Record → Option Record → Map Record
fail_record id records none = records
fail_record id records (some r) = insert id (record r { state = failed }) records

-- Every caller has read the record, so an ID with none, for which the source stores a zero record,
-- does not occur.
unfoldable pub fail : Repo → Text → Repo
unfolding fail_record
fail m id = record m { records = fail_record id m.records (lookup id m.records) }

abbrev pub is_failed : State → Bool
is_failed failed = true
is_failed _ = false

unfoldable pub apply_recovery : Repo → Text → State → Outcome Repo
apply_recovery m id next = elim (lookup id m.records) [
  | none ↦ err not_exist
  | some r ↦
      let records = insert id (record r { state = next }) m.records in
      if is_failed next && text_eq (text_or_empty (lookup r.app_id m.current)) id
      then ok (record m { records = records; current = delete r.app_id m.current })
      else ok (record m { records = records })
]
