-- ===== src/Tests/Live.antt =====
-- internal/live/hub.go: instances.
use tinkercloud.Prelude.{◌≡◌, refl, true, not, some, codes, text_eq, all, filter}
use tinkercloud.Live.{Hub, Limits, new, attach, subscribe, revoke, revoked}
use tinkercloud.Live.Bounds.{Reach, start, next, attaching, subscribing, IsWithin, Reach-IsWithin}
use tinkercloud.Live.Revocation.{revoke_complete}

abbrev one_each : Limits
one_each = record {
  connections_per_app = 1;
  connections_per_viewer = 1;
  subscriptions_per_connection = 1;
  payload_bytes = 10;
}

abbrev attached : Hub
attached = (attach (new one_each) (some (codes "app", codes "viewer", codes "s1")) true).0

attached-Reach :
    Reach one_each (attach attached (some (codes "app", codes "other", codes "s2")) true).0
attached-Reach =
    next
      (next (start one_each)
        (attaching (new one_each) (some (codes "app", codes "viewer", codes "s1")) true))
      (attaching attached (some (codes "app", codes "other", codes "s2")) true)

Reach-IsWithin_example :
    IsWithin (attach attached (some (codes "app", codes "other", codes "s2")) true).0
Reach-IsWithin_example = Reach-IsWithin attached-Reach

revoke_complete_example :
    all
      (λ c. not (revoked (codes "app") (codes "s1") c))
      (revoke attached (codes "app") (codes "s1")).connections
    ≡ true
revoke_complete_example = revoke_complete attached (codes "app") (codes "s1")

second_refused_at_limit :
    (attach attached (some (codes "app", codes "other", codes "s2")) true).0.connections
    ≡ attached.connections
unfolding attach new filter text_eq
second_refused_at_limit = refl

subscribed_twice : Reach one_each (subscribe (subscribe attached 0 (codes "a")).0 0 (codes "b")).0
subscribed_twice =
    next
      (next
        (next (start one_each)
          (attaching (new one_each) (some (codes "app", codes "viewer", codes "s1")) true))
        (subscribing attached 0 (codes "a")))
      (subscribing (subscribe attached 0 (codes "a")).0 0 (codes "b"))
