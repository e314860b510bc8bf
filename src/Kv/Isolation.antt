-- ===== src/Kv/Isolation.antt =====
-- internal/kv/kv.go: an app's entries are its own.
use tinkercloud.Prelude.{ℕ, ◌≡◌, ◌≢◌, Bool, Option, arith, Text, text_eq_iff, inl, inr}
use tinkercloud.Prelude.Map.{Map, lookup, insert, lookup-insert}
use tinkercloud.Access.{Context}
use tinkercloud.Kv.Store.{Entry, ok}
use tinkercloud.Kv.{Service, app_of}
use tinkercloud.Kv.Writes.{
  Op, run, Writes, unchanged, touched, wrote, erased, run-Kept, run_refused, Outcome-cases,
}

lookup-insert_apart :
    (app other : Text) (m : Map Entry) (apps : Map (Map Entry))
    → app ≢ other
    → lookup other (insert app m apps) ≡ lookup other apps
lookup-insert_apart app other m apps n =
    ground (arith, lookup-insert app other m apps, text_eq_iff app other)

Writes-apart :
    (s : Service) (app other : Text) (apps : Map (Map Entry))
    → Writes s app apps
    → app ≢ other
    → lookup other apps ≡ lookup other s.apps
Writes-apart s app other apps (unchanged e) n = rw e
Writes-apart s app other apps (touched e) n = rw e (lookup-insert_apart app other _ s.apps n)
Writes-apart s app other apps (wrote now key value expected m d h e) n =
    rw e (lookup-insert_apart app other m s.apps n)
Writes-apart s app other apps (erased key expected m mutation h e) n =
    rw e (lookup-insert_apart app other m s.apps n)

-- Whatever a request does, successful or not, the entries of every app but the one of its context
-- stay as they were; a request without a context of an app with the capability changes no entry.
pub run_isolated :
    (utf8 json : Text → Bool) (s : Service) (now : ℕ) (auth : Option Context) (op : Op)
    (other : Text)
    → ((app viewer : Text) → app_of auth ≡ ok (app, viewer) → app ≢ other)
    → lookup other (run utf8 json s now auth op).apps ≡ lookup other s.apps
run_isolated utf8 json s now auth op other n = elim (Outcome-cases (app_of auth)) [
  | inl (x, e) ↦ rw (run_refused utf8 json s now auth op e)
  | inr ((app, viewer), e) ↦
      Writes-apart s app other _ (run-Kept utf8 json s now auth app viewer e op).entries
        (n app viewer e)
]
