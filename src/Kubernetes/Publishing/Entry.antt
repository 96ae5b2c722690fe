-- ===== src/Kubernetes/Publishing/Entry.antt =====
-- What the sync of one service writes.
use among_clusters.Prelude.{ℕ, ◌≡◌, refl, false, Option, some, List, [], ◌∷◌, ◌++◌, In, arith}
use among_clusters.Text.{Text, codes}
use among_clusters.Time.{Time}
use among_clusters.Dict
use among_clusters.Dict.{get-put, get-map}
use among_clusters.Model.{IdentityRegistration, AdvertisedService}
use among_clusters.Result.{Result, ok, err}
use among_clusters.Reconciler.{Rfc3339}
use among_clusters.Kubernetes.Namespace
use among_clusters.Kubernetes.Namespace.{
  Policy, PeerResource, ServiceAdvertisement, Answers, contains_string, read,
}
use among_clusters.Kubernetes.Advertising.{check_service, advertisement_of}
use among_clusters.Kubernetes.Advertising.Names.{advertisement_name}
use among_clusters.Kubernetes.Advertising.Allowed.{IsAllowed, check_service-IsAllowed}
use among_clusters.Kubernetes.Publishing.{
  put_advertisement, create_import, create_imports, publish_service, sync_service,
}

-- The checks and the other writes of a sync leave these three alone.
abbrev pub SameParts :
    Dict.Dict ServiceAdvertisement → Namespace.Namespace → Namespace.Namespace → Type 0
SameParts ads a b = (b.advertisements ≡ ads) × (b.policies ≡ a.policies) × (b.peers ≡ a.peers)

-- The advertisement under a name is made of a listed service that its policy allows.
pub record IsPublished (layout : Rfc3339) (now : Time) (issuer : Text)
    (identity : IdentityRegistration) (count : ℕ) (policies : Dict.Dict Policy)
    (peers : List PeerResource) (services : List AdvertisedService) (name : Text)
    (entry : Option ServiceAdvertisement) : Type 0 where
  pub service : AdvertisedService
  pub targets : List Text
  pub listed : In service services
  pub named : advertisement_name issuer service ≡ name
  pub allowed : IsAllowed issuer count policies peers service targets
  pub stored :
      entry
      ≡ some (record {
        publisher = issuer;
        last_published_at = layout.format now;
        publisher_ref = issuer;
        service_identity =
            codes "spiffe://"
            ++ (identity.trust_domain
                ++ (codes "/ns/" ++ (service.namespace ++ (codes "/service/" ++ service.name))));
        service_class = service.service_class;
        protocol = service.protocol;
        port = service.port;
        local_service = service.name;
        gateway_endpoints = identity.gateway_endpoints;
        target_peers = targets;
        ttl_seconds = service.ttl_seconds;
        generation = service.generation;
        policy_ref = service.policy_ref;
        revoked = false;
      })

pub advertisement_of_lem :
    (layout : Rfc3339) (now : Time) (issuer : Text) (identity : IdentityRegistration)
    (v : AdvertisedService) (targets : List Text)
    → advertisement_of layout now issuer identity v targets ≡ record {
      publisher = issuer;
      last_published_at = layout.format now;
      publisher_ref = issuer;
      service_identity =
          codes "spiffe://"
          ++ (identity.trust_domain
              ++ (codes "/ns/" ++ (v.namespace ++ (codes "/service/" ++ v.name))));
      service_class = v.service_class;
      protocol = v.protocol;
      port = v.port;
      local_service = v.name;
      gateway_endpoints = identity.gateway_endpoints;
      target_peers = targets;
      ttl_seconds = v.ttl_seconds;
      generation = v.generation;
      policy_ref = v.policy_ref;
      revoked = false;
    }
unfolding advertisement_of
advertisement_of_lem layout now issuer identity v targets = refl

module _ (answers : Answers) where
  create_import_keeps :
      (name peer : Text) (a : Namespace.Namespace)
      → SameParts a.advertisements a (create_import answers name peer a).1
  unfolding create_import
  create_import_keeps name peer a = ground arith

  create_imports_keeps :
      (name : Text) (peers : List Text) (a : Namespace.Namespace)
      → SameParts a.advertisements a (create_imports answers name peers a).1
  unfolding create_imports
  create_imports_keeps name [] a = (refl, refl, refl)
  create_imports_keeps name (peer ∷ peers) a = ground (
    arith,
    create_import_keeps name peer a,
    create_imports_keeps name peers (create_import answers name peer a).1,
  )

  module _ (layout : Rfc3339) (now : Time) (issuer : Text) (identity : IdentityRegistration)
      (count : ℕ) where
    publish_service_keeps :
        (v : AdvertisedService) (targets : List Text) (a b : Namespace.Namespace)
        → publish_service answers layout now issuer identity count v targets a ≡ (ok tt, b)
        → SameParts
            (Dict.put a.advertisements
              (advertisement_name issuer v)
              (advertisement_of layout now issuer identity v targets))
            a
            b
    unfolding publish_service put_advertisement
    publish_service_keeps v targets a b h =
        let name = advertisement_name issuer v in
        let ad = advertisement_of layout now issuer identity v targets in
        let kept =
          create_imports_keeps name targets
            (record a { advertisements = Dict.put a.advertisements name ad }) in
        ground (arith, h, kept)

    sync_service_facts :
        (v : AdvertisedService) (a b : Namespace.Namespace) (r : Result (List Text))
        → check_service answers issuer count v a ≡ r
        → sync_service answers layout now issuer identity count v a ≡ (ok tt, b)
        → (targets : List Text) × (r ≡ ok targets)
          × (publish_service answers layout now issuer identity count v targets a ≡ (ok tt, b))
    unfolding sync_service
    sync_service_facts v a b (ok targets) e h = (targets, refl, ground (arith, e, h))
    sync_service_facts v a b (err x) e h = absurd (ground (arith, e, h))

    -- What a service that was synced changes.
    pub sync_service_entry :
        (v : AdvertisedService) (a b : Namespace.Namespace)
        → sync_service answers layout now issuer identity count v a ≡ (ok tt, b)
        → (targets : List Text) × IsAllowed issuer count a.policies a.peers v targets
          × SameParts
              (Dict.put a.advertisements
                (advertisement_name issuer v)
                (advertisement_of layout now issuer identity v targets))
              a
              b
    sync_service_entry v a b h =
        let (targets, checked, done) =
          sync_service_facts v a b (check_service answers issuer count v a) refl h in
        (
          targets,
          check_service-IsAllowed answers issuer count v a targets checked,
          publish_service_keeps v targets a b done,
        )
