-- ===== src/Kubernetes/Publishing/InForce.antt =====
-- What a publisher has in force after a sync that succeeds.
use among_clusters.Prelude.{some, List, length}
use among_clusters.Text.{Text}
use among_clusters.Time.{Time}
use among_clusters.Dict
use among_clusters.Model.{IdentityRegistration, AdvertisedService}
use among_clusters.Reconciler.{Rfc3339}
use among_clusters.Kubernetes.Namespace
use among_clusters.Kubernetes.Namespace.{ServiceAdvertisement, Answers}
use among_clusters.Kubernetes.Publishing.Entry.{IsPublished}

module _ (answers : Answers) (layout : Rfc3339) (issuer : Text) (services : List AdvertisedService)
    (now : Time) (space t : Namespace.Namespace) where
  abbrev PublishedBy : IdentityRegistration → Text → ServiceAdvertisement → Type 0
  PublishedBy identity name a =
      IsPublished layout now issuer identity (length services) space.policies space.peers services
        name (some a)
