-- ===== src/Reconciler/Imports.antt =====
-- internal/api/sovereign_reconciler.go: the pass over the service imports, which creates a local
-- Service for each import (reconcileImports). Of a Service the model keeps what the pass writes, with
-- "" for a label that is absent. `admits` says for which keys the API server accepts a Service that
-- is not there yet, `readable` for which keys Get succeeds on a Service that is there, and `accepts`
-- for which imports it takes the status update.
pub mod Again
use among_clusters.Prelude.{
  ℕ, ◌≡◌, refl, Bool, true, false, not, ◌&&◌, Option, none, some, List, [], ◌∷◌, ◌++◌, All, arith,
  if◌then◌else◌, inl, inr, Option-cases,
}
use among_clusters.Prelude.Int.{ℤ, pos, wrap32}
use among_clusters.Text.{Text, codes, ◌==◌}
use among_clusters.Text.Equality.{eq_iff}
use among_clusters.Dict.{Dict, get, put, get-put, has, put_keeps}

pub record Import : Type 0 where
  pub namespace : Text
  pub name : Text
  pub suspended : Bool
  pub local_service_name : Text
  pub local_port : Option ℤ
  pub state : Text
  pub service_ref : Text

pub record Service : Type 0 where
  pub managed_by : Text
  pub import : Text
  pub selector : Text
  pub port : ℕ
  pub target_port : ℤ

unfoldable pub service_key : Import → Text
service_key o = o.namespace ++ codes "/" ++ o.local_service_name

-- The Service that the pass makes for an import.
unfoldable pub service_of : Import → Service
unfolding wrap32
service_of o = record {
  managed_by = codes "among-clusters";
  import = o.name;
  selector = codes "among-clusters-gateway";
  port = 6443;
  target_port = wrap32 (elim o.local_port [ none ↦ pos 8443 | some p ↦ p ]);
}

module _ (admits readable accepts : Text → Bool) where
  -- Create fails on a key that is taken, or where the API server refuses the object.
  unfoldable pub creates : Dict Service → Text → Bool
  creates services k = admits k && not (has services k)

  -- Get succeeds and the label names another import.
  unfoldable pub taken_by_another : Dict Service → Import → Bool
  taken_by_another services o = elim (get services (service_key o)) [
    | none ↦ false
    | some existing ↦ readable (service_key o) && not (existing.import == o.name)
  ]

  unfoldable pub services_after : Dict Service → Import → Dict Service
  services_after services o =
      if o.suspended
      then services
      else if creates services (service_key o)
      then put services (service_key o) (service_of o)
      else services

  unfoldable pub import_state : Dict Service → Import → Text
  import_state services o =
      if o.suspended
      then codes "Suspended"
      else if not (creates services (service_key o)) && taken_by_another services o
      then codes "Failed"
      else codes "Ready"

  unfoldable pub reconcile_import : Dict Service → Import → Import
  reconcile_import services o =
      if accepts (o.namespace ++ codes "/" ++ o.name)
      then record o { state = import_state services o; service_ref = service_key o }
      else o

  -- reconcileImports, over the imports in the order of the list.
  unfoldable pub reconcile_imports : Dict Service → List Import → Dict Service × List Import
  reconcile_imports services [] = (services, [])
  reconcile_imports services (o ∷ l) =
      let rest = reconcile_imports (services_after services o) l in
      (rest.0, reconcile_import services o ∷ rest.1)

  pub services_after_keeps :
      (services : Dict Service) (o : Import) (k : Text) (s : Service)
      → get services k ≡ some s
      → get (services_after services o) k ≡ some s
  unfolding services_after creates
  services_after_keeps services o k s h =
      let keeps = put_keeps services (service_key o) k (service_of o) {old = s} in
      ground (arith, keeps)

  -- A pass over the imports leaves every Service that is there as it is, also one that bears the name
  -- of an import.
  pub reconcile_imports_keeps :
      (services : Dict Service) (l : List Import) (k : Text) (s : Service)
      → get services k ≡ some s
      → get (reconcile_imports services l).0 k ≡ some s
  unfolding reconcile_imports
  reconcile_imports_keeps services [] k s h = h
  reconcile_imports_keeps services (o ∷ l) k s h =
      reconcile_imports_keeps (services_after services o) l k s
        (services_after_keeps services o k s h)

  -- The label of the Service under the key.
  unfoldable pub owner : Dict Service → Text → Option Text
  owner services k = elim (get services k) [ none ↦ none | some s ↦ some s.import ]

  owner_keeps :
      (services : Dict Service) (l : List Import) (k n : Text)
      → owner services k ≡ some n
      → owner (reconcile_imports services l).0 k ≡ some n
  unfolding owner
  owner_keeps services l k n h = elim (Option-cases (get services k)) [
    | inl e ↦ cc
    | inr (s, e) ↦ let keeps = reconcile_imports_keeps services l k s e in ground (arith, keeps, e)
  ]

  ready_owner :
      ((k : Text) → admits k ≡ true)
      → ((k : Text) → readable k ≡ true)
      → (services : Dict Service) (o : Import) → import_state services o ≡ codes "Ready"
      → owner (services_after services o) (service_key o) ≡ some o.name
  unfolding import_state services_after creates taken_by_another has owner service_of
  ready_owner admitted read services o h =
      let admitted = admitted (service_key o) in
      let read = read (service_key o) in
      let added = get-put services (service_key o) (service_key o) (service_of o) in
      let same = (eq_iff (service_key o) (service_key o)).1 refl in
      elim (Option-cases (get services (service_key o))) [
        | inl e ↦ ground (arith, admitted, read, added, same, e)
        | inr (s, e) ↦ ground (arith, admitted, read, e, eq_iff s.import o.name)
      ]

  reconcile_import_lem :
      ((k : Text) → accepts k ≡ true)
      → (services : Dict Service) (o : Import)
      → reconcile_import services o
        ≡ record o { state = import_state services o; service_ref = service_key o }
  unfolding reconcile_import
  reconcile_import_lem accepted services o =
      let accepted = accepted (o.namespace ++ codes "/" ++ o.name) in ground (arith, accepted)

  -- Where the API server takes every object and update, each import that a pass over any list reports
  -- as ready has a Service of its own at the end of the pass: one that bears its name.
  pub reconcile_imports_ready :
      ((k : Text) → admits k ≡ true)
      → ((k : Text) → readable k ≡ true)
      → ((k : Text) → accepts k ≡ true)
      → (services : Dict Service) (l : List Import)
      → All
          (λ o.
            o.state ≡ codes "Ready"
            → owner (reconcile_imports services l).0 (service_key o) ≡ some o.name)
          (reconcile_imports services l).1
  unfolding reconcile_imports service_key
  reconcile_imports_ready admitted read accepted services [] = tt
  reconcile_imports_ready admitted read accepted services (o ∷ l) =
      let after = services_after services o in
      (
        rw (reconcile_import_lem accepted services o) (λ h.
            owner_keeps after l (service_key o) o.name (ready_owner admitted read services o h)),
        reconcile_imports_ready admitted read accepted after l,
      )
