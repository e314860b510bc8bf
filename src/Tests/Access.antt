-- ===== src/Tests/Access.antt =====
-- internal/policies, internal/sessions, internal/appauth: instances.
use tinkercloud.Prelude.{◌≡◌, refl, ◌↔◌, true, false, some, [], ◌∷◌, Text, codes, text_eq}
use tinkercloud.Prelude.Map.{lookup, insert, has_key}
use tinkercloud.Identity.{Identity}
use tinkercloud.Access.{
  Policy, PublicGate, evaluate, Session, SessionStore, create_session, validate, live_session, App,
  active, Authorizer, Context, PublicContext, authorize, authorize_public, authorize_static,
  public_static, current, current_public_gate,
}
use tinkercloud.Access.Decisions.{Authorized, authorize_iff}

abbrev sha : Text → Text
sha t = t

abbrev viewer : Identity
viewer = record { id = codes "u"; email = codes "m@x.y" }

abbrev private_policy : Policy
private_policy = record {
  app_id = codes "app";
  owner_identity_id = codes "owner";
  revision = 3;
  mode = codes "private";
  emails = (codes "m@x.y", tt) ∷ [];
  domains = [];
  valid = true;
}

abbrev open_platform : PublicGate
open_platform = record { revision = 1; enabled = true; valid = true }

abbrev stored : SessionStore
stored = (create_session sha [] (codes "token") (codes "app") viewer 100).0

abbrev session : Session
session = (create_session sha [] (codes "token") (codes "app") viewer 100).1

abbrev pub app : App
app = record {
  id = codes "app";
  slug = codes "demo";
  owner_identity_id = codes "owner";
  release_root = codes "/r";
  deployment_id = codes "d";
  evidence_hash = codes "e";
  status = active;
  spa_fallback = false;
  kv_enabled = false;
  blobs_enabled = false;
  realtime_enabled = false;
  public_indexing = false;
}

abbrev pub private_authorizer : Authorizer
private_authorizer = record {
  sessions = stored;
  policies = record {
    policies = (codes "app", private_policy) ∷ [];
    gate = open_platform;
    broken = false;
  };
  now = 50;
}

abbrev pub public_authorizer : Authorizer
public_authorizer = record {
  sessions = [];
  policies = record {
    policies = (codes "app", record private_policy { mode = codes "public" }) ∷ [];
    gate = open_platform;
    broken = false;
  };
  now = 50;
}

abbrev pub context : Context
context = record { app = app; session = session; revision = 3; request_id = codes "r" }

abbrev pub public_context : PublicContext
public_context = record { app = app; policy_revision = 3; gate_revision = 1; indexing = false }

authorize_iff_example :
    (authorize sha private_authorizer app (codes "token") (codes "r") ≡ some context)
    ↔ Authorized sha private_authorizer app (codes "token") (codes "r") context
authorize_iff_example = authorize_iff sha private_authorizer app (codes "token") (codes "r") context

authorized : authorize sha private_authorizer app (codes "token") (codes "r") ≡ some context
unfolding authorize validate lookup create_session insert text_eq live_session evaluate has_key
    current
authorized = refl

public_served :
    authorize_static sha public_authorizer app (codes "token") (codes "r")
    ≡ some (public_static public_context)
unfolding authorize_static authorize_public lookup text_eq current current_public_gate
public_served = refl
