-- ===== src/Examples/Passes.antt =====
-- The theorems on the reconciler and on health at concrete resources.
use among_clusters.Prelude.{◌≡◌, ◌↔◌, refl, true, false, some, none, [], ◌∷◌, ◌*◌, All, arith}
use among_clusters.Prelude.Int.{pos, wrap32, ◌<ℤ◌, ◌≤ℤ◌, ◌+ℤ◌}
use among_clusters.Text.{codes, ◌==◌}
use among_clusters.Time.{nanoseconds_per_second}
use among_clusters.Dict
use among_clusters.Dict.{Dict, get}
use among_clusters.Health.{
  alive, degraded, unreachable, alive_limit, degraded_limit, evaluate, evaluate_iff,
}
use among_clusters.Reconciler.{
  Rfc3339, Peer, Advertisement, Grant, published_at, reconcile_advertisement,
}
use among_clusters.Reconciler.Once.{Resources, Answers, Clock, SovereignReconciler, once, once-once}
use among_clusters.Reconciler.Expiry.{reconcile_advertisement_iff}
use among_clusters.Reconciler.Imports
use among_clusters.Reconciler.Imports.{
  Import, Service, reconcile_imports, service_key, service_of, owner, reconcile_imports_keeps,
  reconcile_imports_ready,
}
use among_clusters.Examples.Fixtures.{noon, later_that_day}

-- A layout that knows one instant.
abbrev layout : Rfc3339
layout = record { parse = λ t. some later_that_day; format = λ t. codes "later" }

abbrev peer : Peer
peer = record {
  generation = pos 1;
  suspended = false;
  local_identity = codes "alpha";
  remote_identity = codes "beta";
  local_confirmed = true;
  remote_confirmed = true;
  state = [];
  observed_generation = pos 0;
}

abbrev advertisement : Advertisement
advertisement = record {
  created_at = noon;
  last_published = [];
  revoked = false;
  ttl_seconds = pos 60;
  state = [];
  expires_at = [];
}

abbrev grant : Grant
grant = record {
  expires_at = codes "later";
  approved = true;
  revoked = false;
  credential_ref = codes "credential://among-clusters/acme/g1";
  state = [];
  reason = [];
}

reconcile_advertisement_iff_example :
    (((reconcile_advertisement layout noon advertisement).state ≡ codes "Active") ↔ (
      (advertisement.revoked ≡ false)
      × (noon <ℤ published_at layout advertisement +ℤ pos (60 * nanoseconds_per_second))))
    × (((reconcile_advertisement layout noon advertisement).state ≡ codes "Expired") ↔ (
        (advertisement.revoked ≡ false)
        × (published_at layout advertisement +ℤ pos (60 * nanoseconds_per_second) ≤ℤ noon)))
    × (((reconcile_advertisement layout noon advertisement).state ≡ codes "Revoked")
        ↔ (advertisement.revoked ≡ true))
reconcile_advertisement_iff_example =
    reconcile_advertisement_iff layout advertisement 60 noon refl (omega arith)

abbrev import : Import
import = record {
  namespace = codes "acme";
  name = codes "api";
  suspended = false;
  local_service_name = codes "api";
  local_port = none;
  state = [];
  service_ref = [];
}

unfoldable pass_code : Unit {0}
unfolding ◌==◌ Dict.empty Dict.get Dict.put Dict.has Imports.service_key Imports.service_of
    Imports.creates Imports.taken_by_another Imports.services_after Imports.import_state
    Imports.reconcile_import Imports.reconcile_imports wrap32
pass_code = tt

-- The Service is made, and the import is ready.
import_ready :
    (reconcile_imports (λ k. true) (λ k. true) (λ k. true) Dict.empty (import ∷ [])).1
    ≡ record import { state = codes "Ready"; service_ref = codes "acme/api" } ∷ []
unfolding pass_code
import_ready = refl

reconcile_imports_ready_example :
    All
      (λ o.
        o.state ≡ codes "Ready"
        → owner
            (λ k. true)
            (λ k. true)
            (λ k. true)
            (reconcile_imports (λ k. true) (λ k. true) (λ k. true) Dict.empty (import ∷ [])).0
            (service_key o)
          ≡ some o.name)
      (reconcile_imports (λ k. true) (λ k. true) (λ k. true) Dict.empty (import ∷ [])).1
reconcile_imports_ready_example =
    reconcile_imports_ready (λ k. true) (λ k. true) (λ k. true) (λ k. refl) (λ k. refl) (λ k. refl)
      Dict.empty (import ∷ [])

abbrev taken : Dict Service
taken = Dict.put Dict.empty (codes "acme/api") (service_of import)

there : get taken (codes "acme/api") ≡ some (service_of import)
unfolding pass_code
there = refl

reconcile_imports_keeps_example :
    get
      (reconcile_imports (λ k. true) (λ k. true) (λ k. true) taken (import ∷ [])).0
      (codes "acme/api")
    ≡ some (service_of import)
reconcile_imports_keeps_example =
    reconcile_imports_keeps (λ k. true) (λ k. true) (λ k. true) taken (import ∷ [])
      (codes "acme/api") (service_of import) there

abbrev resources : Resources
resources = record {
  peers = Dict.put Dict.empty (codes "acme/p") peer;
  advertisements = Dict.put Dict.empty (codes "acme/a") advertisement;
  links = Dict.empty;
  services = Dict.empty;
  imports = import ∷ [];
  grants = Dict.put Dict.empty (codes "acme/g") grant;
}

-- Every call succeeds.
abbrev answers : Answers
answers = record {
  lists_peers = true;
  lists_advertisements = true;
  lists_links = true;
  lists_imports = true;
  lists_grants = true;
  accepts_peer = λ k. true;
  accepts_advertisement = λ k. true;
  accepts_link = λ k. true;
  accepts_import = λ k. true;
  accepts_grant = λ k. true;
  admits_service = λ k. true;
  reads_service = λ k. true;
}

abbrev clock : Clock
clock = record { at_advertisements = noon; at_links = noon; at_grants = noon }

abbrev reconciler : SovereignReconciler
reconciler = record { has_core = true; managed_access = true }

once-once_example :
    once layout reconciler answers clock (once layout reconciler answers clock resources)
    ≡ once layout reconciler answers clock resources
once-once_example = once-once layout reconciler answers clock resources

evaluate_iff_example :
    ((evaluate noon later_that_day false ≡ alive) ↔ (later_that_day ≤ℤ noon +ℤ pos alive_limit))
    × ((evaluate noon later_that_day false ≡ degraded) ↔ (
        (noon +ℤ pos alive_limit <ℤ later_that_day)
        × (later_that_day ≤ℤ noon +ℤ pos degraded_limit)))
    × ((evaluate noon later_that_day false ≡ unreachable)
        ↔ (noon +ℤ pos degraded_limit <ℤ later_that_day))
evaluate_iff_example = evaluate_iff noon later_that_day
