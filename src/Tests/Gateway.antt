-- ===== src/Tests/Gateway.antt =====
-- internal/gateway/gateway.go: instances.
use tinkercloud.Prelude.{◌≡◌, refl, true, false, Option, none, some, [], ◌∷◌, Text, codes, text_eq}
use tinkercloud.Prelude.Map.{lookup, insert, has_key}
use tinkercloud.Prelude.Strings.{has_prefix, to_lower, contains_byte}
use tinkercloud.AppNamespace
use tinkercloud.Access.{
  App, AppStore, Authorizer, authorize, authorize_static, authorize_public, public_static, validate,
  live_session, create_session, evaluate, resolve_active, current, current_public_gate,
}
use tinkercloud.Access.Decisions.{Authorized}
use tinkercloud.Gateway.{
  Config, Gateway, Request, current_user, classify_host, classify_name, cut_suffix, classify_route,
  is_effective_public, serve,
}
use tinkercloud.Gateway.Authority.{
  IsResolved, IsCapability, serve_dispatch_sound, serve_static_sound,
}
use tinkercloud.Gateway.Routing.{NamesApp, classify_host-app}
use tinkercloud.Tests.Access.{app, private_authorizer, public_authorizer, context, public_context}

abbrev config : Config
config = record { platform_host = codes "x.y"; app_suffix = codes "x.y" }

abbrev store : AppStore
store = record { by_slug = (codes "demo", app) ∷ []; broken = false }

abbrev no_port : Text → Option (Text × Text)
no_port s = none

abbrev gateway_of : Authorizer → Gateway
gateway_of a = record {
  config = config;
  split_host_port = no_port;
  sha256 = λ s. s;
  apps = some store;
  authorizer = a;
  has_platform = true;
  has_pre_auth = true;
  has_protected = true;
}

abbrev asking : Text → Request
asking path = record {
  host = codes "Demo.x.y";
  method = codes "GET";
  path = path;
  cookie = some (codes "token");
  id = codes "r";
  is_document_navigation = false;
  return_path = none;
}

classify_host-app_example : NamesApp no_port config (codes "Demo.x.y") (codes "demo")
unfolding classify_host contains_byte to_lower text_eq cut_suffix classify_name AppNamespace.valid
    AppNamespace.validate AppNamespace.is_reserved AppNamespace.valid_canonical_label
    AppNamespace.ends_with_dash
classify_host-app_example = classify_host-app no_port config (codes "Demo.x.y") (codes "demo") refl

serve_dispatch_sound_example :
    (slug : Text) × (store' : AppStore) × (app' : App) × IsResolved
      (gateway_of private_authorizer)
      (asking (codes "/_tinker/api/v1/me"))
      slug
      store'
      app'
    × IsCapability
        (gateway_of private_authorizer)
        app'
        (asking (codes "/_tinker/api/v1/me"))
        current_user
    × Authorized (λ s. s) private_authorizer app' (codes "token") (codes "r") context
unfolding serve classify_host contains_byte to_lower text_eq cut_suffix classify_name
    AppNamespace.valid AppNamespace.validate AppNamespace.is_reserved
    AppNamespace.valid_canonical_label AppNamespace.ends_with_dash resolve_active lookup
    classify_route has_prefix is_effective_public current current_public_gate authorize validate
    insert live_session create_session evaluate has_key
serve_dispatch_sound_example =
    serve_dispatch_sound (gateway_of private_authorizer) (asking (codes "/_tinker/api/v1/me"))
      context current_user refl

serve_static_sound_example :
    (slug : Text) × (store' : AppStore) × (app' : App) × IsResolved
      (gateway_of public_authorizer)
      (asking (codes "/index.html"))
      slug
      store'
      app'
    × (has_prefix (codes "/index.html") (codes "/_tinker/") ≡ false)
    × (authorize_static (λ s. s) public_authorizer app' (codes "token") (codes "r")
        ≡ some (public_static public_context))
unfolding serve classify_host contains_byte to_lower text_eq cut_suffix classify_name
    AppNamespace.valid AppNamespace.validate AppNamespace.is_reserved
    AppNamespace.valid_canonical_label AppNamespace.ends_with_dash resolve_active lookup
    classify_route has_prefix authorize_static authorize_public is_effective_public current
    current_public_gate
serve_static_sound_example =
    serve_static_sound (gateway_of public_authorizer) (asking (codes "/index.html"))
      (public_static public_context) refl

resolved :
    IsResolved
      (gateway_of public_authorizer)
      (asking (codes "/_tinker/api/v1/kv"))
      (codes "demo")
      store
      app
unfolding classify_host resolve_active lookup contains_byte to_lower text_eq cut_suffix
    classify_name AppNamespace.valid AppNamespace.validate AppNamespace.is_reserved
    AppNamespace.valid_canonical_label AppNamespace.ends_with_dash
resolved = record { named = refl; stored = refl; resolved = refl }
