-- ===== src/Kubernetes/Publishing.antt =====
-- internal/api/sovereign_store.go: SyncAdvertisements of KubernetesSovereignStore, the whole method on the
-- namespace of the tenant, with no other writer during the call.
pub mod Entry
pub mod Synced
pub mod InForce
use among_clusters.Prelude.{
  ℕ, Bool, true, false, not, ◌&&◌, Option, none, some, List, [], ◌∷◌, length, if◌then◌else◌,
}
use among_clusters.Text.{Text, codes, ◌==◌}
use among_clusters.Time.{Time}
use among_clusters.Dict
use among_clusters.Model.{IdentityRegistration, AdvertisedService}
use among_clusters.Result.{Result, Error, ok, err, remote}
use among_clusters.Reconciler.{Rfc3339}
use among_clusters.Kubernetes.Namespace
use among_clusters.Kubernetes.Namespace.{
  ServiceAdvertisement, ImportedService, Answers, contains_string, read,
}
use among_clusters.Kubernetes.Advertising.{check_service, advertisement_of}
use among_clusters.Kubernetes.Advertising.Names.{advertisement_name, import_name, import_port}

module _ (answers : Answers) where
  -- Create of an advertisement that is not there, or Update of the one that is.
  unfoldable pub put_advertisement :
      Text → ServiceAdvertisement → Namespace.Namespace → Result (Unit {0}) × Namespace.Namespace
  put_advertisement name a space =
      if answers.reads Namespace.advertisement name && answers.writes Namespace.advertisement name
      then (ok tt, record space { advertisements = Dict.put space.advertisements name a })
      else (err (remote answers.failure), space)

  -- Create of an import; one that is there stays as it is.
  unfoldable pub create_import :
      Text → Text → Namespace.Namespace → Result (Unit {0}) × Namespace.Namespace
  create_import name peer space =
      let import = import_name name peer in
      if not (answers.writes Namespace.import import)
      then (err (remote answers.failure), space)
      else if Dict.has space.imports import
      then (ok tt, space)
      else (
        ok tt,
        record space {
          imports = Dict.put space.imports import (record {
            advertisement_ref = name;
            peer_ref = peer;
            local_service_name = import;
            local_port = import_port import;
            suspended = false;
          });
        },
      )

  unfoldable pub create_imports :
      Text → List Text → Namespace.Namespace → Result (Unit {0}) × Namespace.Namespace
  unfolding create_import
  create_imports name [] space = (ok tt, space)
  create_imports name (peer ∷ peers) space =
      let made = create_import name peer space in
      let rest = create_imports name peers made.1 in
      elim made.0 [ ok _ ↦ rest | err e ↦ (err e, made.1) ]

  -- spec.revoked of the publisher's advertisements that are not in the list; a refused Update is ignored.
  unfoldable pub withdraw : Text → List Text → Text → ServiceAdvertisement → ServiceAdvertisement
  withdraw issuer seen name a =
      if (a.publisher == issuer)
        && (not (contains_string seen name) && answers.writes Namespace.advertisement name)
      then record a { revoked = true }
      else a

  module _ (layout : Rfc3339) (now : Time) (issuer : Text) (identity : IdentityRegistration)
      (count : ℕ) where
    -- The writes for a service that was checked.
    unfoldable pub publish_service :
        AdvertisedService
        → List Text
        → Namespace.Namespace
        → Result (Unit {0}) × Namespace.Namespace
    unfolding put_advertisement create_imports
    publish_service v targets space =
        let name = advertisement_name issuer v in
        let put =
          put_advertisement name (advertisement_of layout now issuer identity v targets) space in
        let made = create_imports name targets put.1 in
        elim put.0 [ ok _ ↦ made | err e ↦ (err e, put.1) ]

    -- The loop's body.
    unfoldable pub sync_service :
        AdvertisedService → Namespace.Namespace → Result (Unit {0}) × Namespace.Namespace
    unfolding publish_service
    sync_service v space = elim (check_service answers issuer count v space) [
      | err e ↦ (err e, space)
      | ok targets ↦ publish_service v targets space
    ]

    -- The loop; its result is the names that it has seen.
    unfoldable pub sync_services :
        List AdvertisedService → Namespace.Namespace → Result (List Text) × Namespace.Namespace
    unfolding sync_service
    sync_services [] space = (ok [], space)
    sync_services (v ∷ vs) space =
        let first = sync_service v space in
        let rest = sync_services vs first.1 in
        elim first.0 [
          | err e ↦ (err e, first.1)
          | ok _ ↦ elim rest.0 [
            | err e ↦ (err e, rest.1)
            | ok names ↦ (ok (advertisement_name issuer v ∷ names), rest.1)
          ]
        ]

  -- The end of the method: what the publisher no longer advertises is revoked.
  unfoldable pub revoke_rest :
      Text → List Text → Namespace.Namespace → Result (Unit {0}) × Namespace.Namespace
  unfolding withdraw
  revoke_rest issuer seen space =
      if answers.lists Namespace.advertisement
      then (
        ok tt,
        record space { advertisements = Dict.map (withdraw issuer seen) space.advertisements },
      )
      else (err (remote answers.failure), space)

  unfoldable pub after_services :
      Text → Result (List Text) × Namespace.Namespace → Result (Unit {0}) × Namespace.Namespace
  unfolding revoke_rest
  after_services issuer (ok seen, space) = revoke_rest issuer seen space
  after_services issuer (err e, space) = (err e, space)

  -- SyncAdvertisements
  unfoldable pub sync_advertisements :
      Rfc3339
      → Text
      → List AdvertisedService
      → Time
      → Namespace.Namespace
      → Result (Unit {0}) × Namespace.Namespace
  unfolding sync_services after_services
  sync_advertisements layout issuer services now space =
      elim (read (answers.reads Namespace.identity issuer) (Dict.get space.identities issuer)) [
        | none ↦ (err (remote answers.failure), space)
        | some identity ↦
            after_services issuer
              (sync_services layout now issuer identity (length services) services space)
      ]
