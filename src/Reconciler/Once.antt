-- ===== src/Reconciler/Once.antt =====
-- internal/api/sovereign_reconciler.go: Once, which runs the five passes in turn, over all the
-- resources that the reconciler sees. The passes work on different resources.
use among_clusters.Prelude.{◌≡◌, refl, Bool, not, List, if◌then◌else◌, Bool-cases, inl, inr}
use among_clusters.Text.{Text}
use among_clusters.Time.{Time}
use among_clusters.Dict.{Dict}
use among_clusters.Reconciler.{
  Rfc3339, Peer, Advertisement, Link, Grant, reconcile_peers, reconcile_advertisements,
  reconcile_links, reconcile_grants,
}
use among_clusters.Reconciler.Peers.{reconcile_idem}
use among_clusters.Reconciler.Imports.{Import, Service, reconcile_imports}
use among_clusters.Reconciler.Imports.Again.{reconcile_imports-reconcile_imports}

pub record Resources : Type 0 where
  pub peers : Dict Peer
  pub advertisements : Dict Advertisement
  pub links : Dict Link
  pub services : Dict Service
  pub imports : List Import
  pub grants : Dict Grant

-- The API server during one call: which list calls succeed, which status updates it accepts (for each
-- kind of resource), which Services it admits, and which it can read.
pub record Answers : Type 0 where
  pub lists_peers : Bool
  pub lists_advertisements : Bool
  pub lists_links : Bool
  pub lists_imports : Bool
  pub lists_grants : Bool
  pub accepts_peer : Text → Bool
  pub accepts_advertisement : Text → Bool
  pub accepts_link : Text → Bool
  pub accepts_import : Text → Bool
  pub accepts_grant : Text → Bool
  pub admits_service : Text → Bool
  pub reads_service : Text → Bool

-- The readings of the clock in one call; one stands for all links.
pub record Clock : Type 0 where
  pub at_advertisements : Time
  pub at_links : Time
  pub at_grants : Time

-- The fields of SovereignReconciler: Core is set or nil, and managed access.
pub record SovereignReconciler : Type 0 where
  pub has_core : Bool
  pub managed_access : Bool

module _ (layout : Rfc3339) (r : SovereignReconciler) (server : Answers) where
  -- reconcileImports, with its first two guards.
  unfoldable pub imports_pass : Dict Service → List Import → Dict Service × List Import
  imports_pass services imports =
      if not r.has_core
      then (services, imports)
      else if not server.lists_imports
      then (services, imports)
      else reconcile_imports server.admits_service server.reads_service server.accepts_import
          services imports

  module _ (clock : Clock) where
    -- Once
    unfoldable pub once : Resources → Resources
    unfolding imports_pass
    once s =
        let imported = imports_pass s.services s.imports in
        record {
          peers = reconcile_peers server.lists_peers server.accepts_peer s.peers;
          advertisements =
              reconcile_advertisements layout clock.at_advertisements server.lists_advertisements
                server.accepts_advertisement s.advertisements;
          links =
              reconcile_links layout clock.at_links server.lists_links server.accepts_link s.links;
          services = imported.0;
          imports = imported.1;
          grants =
              reconcile_grants layout r.managed_access clock.at_grants server.lists_grants
                server.accepts_grant s.grants;
        }

  imports_pass_twice :
      (services : Dict Service) (imports : List Import)
      → imports_pass (imports_pass services imports).0 (imports_pass services imports).1
        ≡ imports_pass services imports
  unfolding imports_pass
  imports_pass_twice services imports = elim (Bool-cases r.has_core) [
    | inr e ↦ rw e refl
    | inl e ↦ elim (Bool-cases server.lists_imports) [
      | inr g ↦ rw e (rw g refl)
      | inl g ↦ rw e (
          rw g (
            reconcile_imports-reconcile_imports server.admits_service server.reads_service
              server.accepts_import services imports))
    ]
  ]

  -- A second run of all passes, with the same readings of the clock and the same refusals of the API
  -- server, changes nothing: no status, and no Service.
  pub once-once : (clock : Clock) (s : Resources) → once clock (once clock s) ≡ once clock s
  unfolding once
  once-once clock s =
      let imported = imports_pass_twice s.services s.imports in
      rw
        (reconcile_idem layout clock.at_grants r.managed_access server.lists_peers
          server.accepts_peer s.peers s.advertisements s.links s.grants).0
        (rw
          (reconcile_idem layout clock.at_advertisements r.managed_access
            server.lists_advertisements server.accepts_advertisement s.peers s.advertisements
            s.links s.grants).1
          (rw
            (reconcile_idem layout clock.at_links r.managed_access server.lists_links
              server.accepts_link s.peers s.advertisements s.links s.grants).2
            (rw
              (reconcile_idem layout clock.at_grants r.managed_access server.lists_grants
                server.accepts_grant s.peers s.advertisements s.links s.grants).3
              (rw imported refl))))
