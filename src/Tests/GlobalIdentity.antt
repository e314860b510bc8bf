-- ===== src/Tests/GlobalIdentity.antt =====
-- internal/persistence/global_identity.go: instances.
use tinkercloud.Prelude.{
  ◌≡◌, refl, arith, ◌+◌, ◌*◌, Bool, true, false, Option, none, some, List, [], ◌∷◌, ◌++◌, ◌&&◌,
  Text, codes, text_eq,
}
use tinkercloud.Prelude.Map.{lookup, insert, has_key}
use tinkercloud.Prelude.Strings.{has_prefix, contains_any}
use tinkercloud.Access.{evaluate}
use tinkercloud.Kv.Store.{text_lt}
use tinkercloud.GlobalIdentity.Tables.{
  SessionRow, HandoffRow, ChildRow, AppRow, UserRow, Db, identity_denied, ok, err, update_rows,
  find_row, delete_rows, select_rows, policy_allows, known_rule, rules_of, in_family,
}
use tinkercloud.GlobalIdentity.{
  second, valid, revoke_family, has_live, live_children, handoff, rotate_after,
}
use tinkercloud.GlobalIdentity.Sessions.{present, refresh, accept, validate, new_session}
use tinkercloud.GlobalIdentity.Handoffs.{
  create_handoff, cleanup, is_stale, in_order, insert_ordered, stored_le, fraction_text, drop_zeros,
  safe_relative_path, consume_handoff, may_consume, validate_child, force_handoff,
}
use tinkercloud.GlobalIdentity.Codes.{Hashes}
use tinkercloud.GlobalIdentity.Platform.{authenticate_dashboard, accept_dashboard}
use tinkercloud.GlobalIdentity.Runs.{Op, validates, creates, forces, after, run, runs}
use tinkercloud.GlobalIdentity.Dead.{IsDead}
use tinkercloud.GlobalIdentity.Ended.{runs-present, runs-validate_child}
use tinkercloud.GlobalIdentity.Rotation.{validate-present}
use tinkercloud.GlobalIdentity.Spending.{consume_handoff-consume_handoff, validate-IsDead_replay}
use tinkercloud.GlobalIdentity.Dashboard.{IsDashboardUser, authenticate_dashboard-IsDashboardUser}

abbrev hash : Text → Text
hash t = b'#' ∷ t

abbrev hashes : Hashes
hashes = record { sha256 = hash; code_hash = λ k id c. k ++ id ++ c }

abbrev parse : Text → Option (Bool × (Text × Text))
parse t = some (false, ([], t))

abbrev email : Text
email = codes "a@b.co"

abbrev login : Text → Text → Text → SessionRow
login id family token = new_session hash id email family token (codes "browser") 0

abbrev first : SessionRow
first = login (codes "s1") (codes "f1") (codes "t1")

abbrev other : SessionRow
other = login (codes "s2") (codes "f2") (codes "t2")

abbrev child : ChildRow
child = record {
  id = codes "c";
  app = codes "app";
  email = email;
  parent = codes "s2";
  secret = hash (codes "tc");
  expires_at = 9000;
  revoked_at = none;
}

abbrev app : AppRow
app = record {
  slug = codes "app";
  active = true;
  policy = some (record { mode = codes "private"; owner = email; revision = 1; rules = [] });
}

abbrev pending : HandoffRow
pending = record {
  id = codes "h";
  app = codes "app";
  state_hash = hash (codes "state");
  return_path = codes "/";
  force_login = false;
  binding = none;
  session = some (codes "s2");
  expires_at = 9000;
  created_at = 0;
  authorized_at = some 1;
  consumed_at = none;
  revoked_at = none;
}

abbrev operator : UserRow
operator = record { id = codes "u"; email = email; role = codes "operator"; active = true }

abbrev two_families : Db
two_families = record {
  platform = [];
  users = (codes "u", operator) ∷ [];
  sessions = (codes "s1", first) ∷ (codes "s2", other) ∷ [];
  handoffs = (codes "h", pending) ∷ [];
  children = (codes "c", child) ∷ [];
  challenges = [];
  apps = (codes "app", app) ∷ [];
}

-- The first family is revoked.
abbrev one_family : Db
one_family = after two_families (revoke_family two_families (codes "f1") 5)

abbrev calls : List Op
calls =
    validates (codes "t2") 6 (codes "t3")
    ∷ creates (codes "app") (codes "/") false 7 (codes "h2") (codes "state2")
    ∷ forces (codes "h2") 8
    ∷ []

runs-present_example : text_eq (codes "f2") (codes "f1") ≡ false
unfolding revoke_family has_live live_children in_family update_rows find_row select_rows text_eq
    lookup runs run validate present accept refresh create_handoff cleanup is_stale in_order
    insert_ordered stored_le fraction_text drop_zeros text_lt delete_rows safe_relative_path
    has_prefix contains_any has_key insert force_handoff handoff new_session
runs-present_example =
    runs-present hashes parse two_families (codes "f1") 5 one_family [] calls refl
      (tt, (tt, (tt, tt))) (codes "t2") 9 (record other { last_seen_at = 6 }) false refl

runs-validate_child_example :
    in_family (codes "f1") (runs hashes parse one_family calls).sessions (codes "s2") ≡ false
unfolding revoke_family has_live live_children in_family update_rows find_row select_rows text_eq
    lookup runs run validate present accept refresh create_handoff cleanup is_stale in_order
    insert_ordered stored_le fraction_text drop_zeros text_lt delete_rows safe_relative_path
    has_prefix contains_any has_key insert force_handoff handoff new_session validate_child
runs-validate_child_example =
    runs-validate_child hashes parse two_families (codes "f1") 5 one_family [] calls refl
      (tt, (tt, (tt, tt))) (codes "app") (codes "tc") 9 child refl

-- A path on the same host is accepted, and another host is not.
path_accepted : safe_relative_path parse (codes "/dashboard?x=1") ≡ some (codes "/dashboard?x=1")
unfolding safe_relative_path has_prefix contains_any
path_accepted = refl

host_refused : safe_relative_path parse (codes "//evil.example") ≡ none
unfolding safe_relative_path has_prefix contains_any
host_refused = refl

-- The calls create a handoff and force a login on it.
abbrev is_forced : Option HandoffRow → Bool
is_forced none = false
is_forced (some h) = text_eq h.return_path (codes "/") && h.force_login

handoff_forced :
    is_forced (lookup (codes "h2") (runs hashes parse one_family calls).handoffs) ≡ true
unfolding revoke_family has_live live_children in_family update_rows find_row select_rows text_eq
    lookup runs run validate present accept refresh create_handoff cleanup is_stale in_order
    insert_ordered stored_le fraction_text drop_zeros text_lt delete_rows safe_relative_path
    has_prefix contains_any has_key insert force_handoff handoff new_session
handoff_forced = refl

-- A day later, the token of the first family is replaced.
abbrev replaced : Db
replaced = (validate hash two_families (codes "t1") rotate_after (codes "t9")).0

abbrev next : SessionRow
next = record first {
  previous = some (hash (codes "t1"), 60 * second + rotate_after);
  secret = hash (codes "t9");
  rotated_at = rotate_after;
  last_seen_at = rotate_after;
}

validate-present_example :
    ((validate hash two_families (codes "t1") rotate_after (codes "t9")).1.replacement
      ≡ some (codes "t9"))
    × (present hash replaced (codes "t9") (rotate_after + 1) ≡ valid next false)
    × (present hash replaced (codes "t1") (rotate_after + 1) ≡ valid next true)
unfolding present find_row text_eq new_session validate accept refresh update_rows
validate-present_example =
    validate-present hash two_families (codes "t1") (codes "t9") rotate_after first refl
      (omega arith) (refl, (refl, tt)) refl (rotate_after + 1)

-- The same session with the token before, whose minute is over.
abbrev stale : SessionRow
stale = record first { previous = some (hash (codes "t0"), 60) }

abbrev with_stale : Db
with_stale = record two_families { sessions = (codes "s1", stale) ∷ (codes "s2", other) ∷ [] }

validate-IsDead_replay_example :
    ((validate hash with_stale (codes "t0") 100 (codes "t9")).1.error ≡ some identity_denied)
    × IsDead
        (codes "f1")
        (validate hash with_stale (codes "t0") 100 (codes "t9")).0.sessions
        (validate hash with_stale (codes "t0") 100 (codes "t9")).0.children
unfolding present find_row text_eq new_session
validate-IsDead_replay_example =
    validate-IsDead_replay hash with_stale (codes "t0") 100 (codes "t9") stale refl refl

abbrev exchanged : Db × ChildRow
exchanged =
    elim (consume_handoff hash two_families (codes "app") (codes "h") (codes "state") 10 100
      (codes "raw") (codes "ses")) [ ok r ↦ r | err e ↦ (two_families, child) ]

consume_handoff-consume_handoff_example :
    consume_handoff hash exchanged.0
      (codes "app")
      (codes "h")
      (codes "state")
      11
      100
      (codes "raw2")
      (codes "ses2")
    ≡ err identity_denied
unfolding consume_handoff handoff has_key lookup text_eq may_consume policy_allows known_rule
    rules_of evaluate insert update_rows new_session
consume_handoff-consume_handoff_example =
    consume_handoff-consume_handoff hash two_families (codes "app") (codes "h") (codes "state") 10
      100 (codes "raw") (codes "ses") pending exchanged refl refl refl (codes "app") (codes "state")
      11 100 (codes "raw2") (codes "ses2")

authenticate_dashboard-IsDashboardUser_example :
    (s : SessionRow) × (prior : Bool) × (present hash two_families (codes "t1") 5 ≡ valid s prior)
    × IsDashboardUser s.email operator
unfolding authenticate_dashboard accept_dashboard present find_row text_eq refresh update_rows
    new_session
authenticate_dashboard-IsDashboardUser_example =
    authenticate_dashboard-IsDashboardUser hash two_families (codes "t1") 5 (codes "t9") operator
      refl
