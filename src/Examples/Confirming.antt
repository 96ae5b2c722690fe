-- ===== src/Examples/Confirming.antt =====
-- The confirmation of a bundle at a concrete peer.
use among_clusters.Prelude.{◌≡◌, refl, true, false, []}
use among_clusters.Prelude.Int.{pos}
use among_clusters.Text.{codes, ◌==◌}
use among_clusters.Dict
use among_clusters.Model.{BundleConfirmation}
use among_clusters.Result.{ok}
use among_clusters.Reconciler.{Peer}
use among_clusters.Kubernetes
use among_clusters.Kubernetes.{Resources, confirm_peer_bundle}
use among_clusters.Kubernetes.Confirmations.{IsConfirmed, confirm_peer_bundle-IsConfirmed}
use among_clusters.Examples.Fixtures.{alpha}

abbrev pair : Peer
pair = record {
  generation = pos 1;
  suspended = false;
  local_identity = codes "beta";
  remote_identity = codes "alpha";
  local_confirmed = false;
  remote_confirmed = false;
  state = [];
  observed_generation = pos 0;
}

abbrev resources : Resources
resources = record {
  identities = Dict.put Dict.empty (codes "acme/alpha") alpha;
  peers = Dict.put Dict.empty (codes "acme/pair") pair;
}

abbrev confirmation : BundleConfirmation
confirmation = record { peer_ref = codes "pair"; bundle_digest = alpha.bundle_digest }

abbrev confirmed : Resources
confirmed =
    (confirm_peer_bundle (λ k. true) [] (codes "acme") (codes "beta") confirmation resources).1

unfoldable kubernetes_code : Unit {0}
unfolding ◌==◌ Dict.empty Dict.get Dict.put Kubernetes.resource_key Kubernetes.side_of
    Kubernetes.other_identity Kubernetes.confirm_side Kubernetes.identity Kubernetes.confirm_with
    Kubernetes.confirm_peer Kubernetes.confirm_peer_bundle
kubernetes_code = tt

confirms :
    confirm_peer_bundle (λ k. true) [] (codes "acme") (codes "beta") confirmation resources
    ≡ (ok tt, confirmed)
unfolding kubernetes_code
confirms = refl

confirm_peer_bundle-IsConfirmed_example :
    IsConfirmed (λ k. true) [] (codes "acme") (codes "beta") confirmation resources confirmed
confirm_peer_bundle-IsConfirmed_example =
    confirm_peer_bundle-IsConfirmed (λ k. true) [] (codes "acme") (codes "beta") confirmation
      resources confirmed confirms
