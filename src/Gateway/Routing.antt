-- ===== src/Gateway/Routing.antt =====
-- internal/gateway/gateway.go: what `ClassifyHost` may take for the host of an app.
use tinkercloud.Prelude.{
  ◌≡◌, refl, subst, true, false, Option, none, some, [], ◌∷◌, ◌++◌, arith, Text, ◌⊎◌, inl, inr,
  Option-cases, text_eq_iff, codes,
}
use tinkercloud.Prelude.Strings.{to_lower, contains_byte}
use tinkercloud.AppNamespace
use tinkercloud.AppNamespace.Grammar.{IsLabel, valid-IsLabel}
use tinkercloud.Gateway.{
  app_host, Config, cut_suffix, or_whole, classify_name, classify_host, valid_port,
}

-- What a cut leaves is the text without the suffix.
abbrev IsStem : Text → Text → Option Text → Type 0
IsStem s suffix none = Unit
IsStem s suffix (some r) = s ≡ r ++ suffix

cut_suffix-append : (s suffix : Text) → IsStem s suffix (cut_suffix s suffix)
unfolding cut_suffix
cut_suffix-append [] suffix = ground (arith, text_eq_iff [] suffix)
cut_suffix-append (c ∷ s) suffix =
    ground (arith, text_eq_iff (c ∷ s) suffix, cut_suffix-append s suffix)

-- The name part of a host, in lower case and without a final dot.
abbrev pub canonical : Text → Text
canonical name = or_whole (to_lower name) (cut_suffix (to_lower name) (codes "."))

classify_name-app :
    (cfg : Config) (raw slug : Text)
    → classify_name cfg raw ≡ some (app_host slug)
    → (AppNamespace.valid slug ≡ true) × (canonical raw ≡ slug ++ (codes "." ++ cfg.app_suffix))
unfolding classify_name
classify_name-app cfg raw slug h =
    let dotted = codes "." ++ cfg.app_suffix in
    let e : cut_suffix (canonical raw) dotted ≡ some slug = ground arith in
    (
      ground arith,
      subst (IsStem (canonical raw) dotted) e (cut_suffix-append (canonical raw) dotted),
    )

-- The host without its port, and whether it stood alone or before a valid one.
pub record NamesApp (split : Text → Option (Text × Text)) (cfg : Config) (raw slug : Text)
    : Type 0 where
  pub name : Text
  pub unported :
      (name ≡ raw) × (split raw ≡ none) × (contains_byte raw b':' ≡ false)
      ⊎ ((port : Text) × (split raw ≡ some (name, port)) × (valid_port port ≡ true))
  pub suffixed : canonical name ≡ slug ++ (codes "." ++ cfg.app_suffix)
  pub label : IsLabel slug
  pub free : AppNamespace.is_reserved slug ≡ false

-- `ClassifyHost` takes a host for that of an app only if its name, in lower case and without a final
-- dot, is the app's slug in front of the app suffix, and the slug is one lower case DNS label that
-- is not reserved; with a port, the port is a number from 1 to 65535.
pub classify_host-app :
    (split : Text → Option (Text × Text)) (cfg : Config) (raw slug : Text)
    → classify_host split cfg raw ≡ some (app_host slug)
    → NamesApp split cfg raw slug
unfolding classify_host
classify_host-app split cfg raw slug h = elim (Option-cases (split raw)) [
  | inl n ↦
      let c : classify_name cfg raw ≡ some (app_host slug) = ground arith in
      let v = classify_name-app cfg raw slug c in
      let l = valid-IsLabel slug v.0 in
      record {
        name = raw;
        unported = inl (refl, n, ground arith);
        suffixed = v.1;
        label = l.0;
        free = l.1;
      }
  | inr ((name, port), e) ↦
      let c : classify_name cfg name ≡ some (app_host slug) = ground arith in
      let v = classify_name-app cfg name slug c in
      let l = valid-IsLabel slug v.0 in
      record {
        name = name;
        unported = inr (port, e, ground arith);
        suffixed = v.1;
        label = l.0;
        free = l.1;
      }
]
