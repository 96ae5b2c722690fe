-- ===== src/Reconciler/Imports/Again.antt =====
-- A second pass over the imports, on what the first one left.
use among_clusters.Prelude.{
  ◌≡◌, refl, sym, ap, ◌∙◌, Bool, true, false, List, [], ◌∷◌, arith, inl, inr, Bool-cases,
  Option-cases, ◌++◌,
}
use among_clusters.Text.{Text, codes}
use among_clusters.Text.Equality.{eq_iff}
use among_clusters.Dict.{Dict, get, get-put, has}
use among_clusters.Reconciler.Imports.{
  Import, Service, service_key, service_of, creates, taken_by_another, services_after,
  services_after_keeps, import_state, reconcile_import, reconcile_imports,
}

module _ (admits readable accepts : Text → Bool) where
  -- No Service can be made under the key.
  IsClosed : Dict Service → Text → Type 0
  IsClosed services k = creates admits readable accepts services k ≡ false

  services_after_refused :
      (services : Dict Service) (o : Import) (k : Text)
      → admits k ≡ false
      → get (services_after admits readable accepts services o) k ≡ get services k
  unfolding services_after creates
  services_after_refused services o k h =
      let added = get-put services (service_key o) k (service_of o) in
      ground (arith, added, h, eq_iff (service_key o) k)

  services_after-IsClosed :
      (services : Dict Service) (o : Import) (k : Text)
      → IsClosed services k
      → get (services_after admits readable accepts services o) k ≡ get services k
  unfolding IsClosed creates has
  services_after-IsClosed services o k h = elim (Option-cases (get services k)) [
    | inl e ↦ services_after_refused services o k (ground (arith, h, e))
    | inr (s, e) ↦ services_after_keeps admits readable accepts services o k s e ∙ sym e
  ]

  creates-get :
      (services services' : Dict Service) (k : Text)
      → get services' k ≡ get services k
      → creates admits readable accepts services' k ≡ creates admits readable accepts services k
  unfolding creates has
  creates-get services services' k h = rw (h, creates, has) refl

  import_state-get :
      (services services' : Dict Service) (o : Import)
      → get services' (service_key o) ≡ get services (service_key o)
      → import_state admits readable accepts services' o
        ≡ import_state admits readable accepts services o
  unfolding import_state creates has taken_by_another
  import_state-get services services' o h =
      rw (h, import_state, creates, has, taken_by_another) refl

  -- What the rest of a pass leaves under a closed key.
  reconcile_imports-IsClosed :
      (services : Dict Service) (l : List Import) (k : Text)
      → IsClosed services k
      → get (reconcile_imports admits readable accepts services l).0 k ≡ get services k
  unfolding reconcile_imports IsClosed
  reconcile_imports-IsClosed services [] k h = refl
  reconcile_imports-IsClosed services (o ∷ l) k h =
      let after = services_after admits readable accepts services o in
      let same = services_after-IsClosed services o k h in
      reconcile_imports-IsClosed after l k (creates-get services after k same ∙ h) ∙ same

  closes :
      (services : Dict Service) (o : Import)
      → o.suspended ≡ false
      → IsClosed (services_after admits readable accepts services o) (service_key o)
  unfolding IsClosed services_after creates has
  closes services o h =
      let added = get-put services (service_key o) (service_key o) (service_of o) in
      let same = (eq_iff (service_key o) (service_key o)).1 refl in ground (arith, added, same, h)

  import_state-services_after :
      (services : Dict Service) (o : Import)
      → import_state admits readable accepts (services_after admits readable accepts services o) o
        ≡ import_state admits readable accepts services o
  unfolding import_state services_after creates has taken_by_another service_of
  import_state-services_after services o =
      let added = get-put services (service_key o) (service_key o) (service_of o) in
      let same = (eq_iff (service_key o) (service_key o)).1 refl in
      let own = (eq_iff o.name o.name).1 refl in ground (arith, added, same, own)

  -- Under an import's key, the end of the pass has what its own step left, if it is not suspended.
  final :
      (services : Dict Service) (o : Import) (l : List Import)
      → o.suspended ≡ false
      → get (reconcile_imports admits readable accepts services (o ∷ l)).0 (service_key o)
        ≡ get (services_after admits readable accepts services o) (service_key o)
  unfolding reconcile_imports
  final services o l h =
      reconcile_imports-IsClosed (services_after admits readable accepts services o) l
        (service_key o) (closes services o h)

  -- A step reads only what no step writes.
  services_after-reconcile_import :
      (services at : Dict Service) (o : Import)
      → services_after admits readable accepts services
          (reconcile_import admits readable accepts at o)
        ≡ services_after admits readable accepts services o
  unfolding reconcile_import services_after service_key service_of
  services_after-reconcile_import services at o =
      elim (Bool-cases (accepts (o.namespace ++ codes "/" ++ o.name))) [
        | inl e ↦ rw (e, reconcile_import) refl
        | inr e ↦ rw (e, reconcile_import) refl
      ]

  reconcile_import_accepted :
      (services : Dict Service) (o : Import)
      → accepts (o.namespace ++ codes "/" ++ o.name) ≡ true
      → reconcile_import admits readable accepts services o ≡ record o {
        state = import_state admits readable accepts services o;
        service_ref = service_key o;
      }
  unfolding reconcile_import
  reconcile_import_accepted services o e = rw e refl

  reconcile_import_refused :
      (services : Dict Service) (o : Import)
      → accepts (o.namespace ++ codes "/" ++ o.name) ≡ false
      → reconcile_import admits readable accepts services o ≡ o
  unfolding reconcile_import
  reconcile_import_refused services o e = rw e refl

  reconcile_import-reconcile_import :
      (services at : Dict Service) (o : Import)
      → import_state admits readable accepts services o ≡ import_state admits readable accepts at o
      → reconcile_import admits readable accepts services
          (reconcile_import admits readable accepts at o)
        ≡ reconcile_import admits readable accepts at o
  unfolding import_state creates taken_by_another service_key
  reconcile_import-reconcile_import services at o h =
      elim (Bool-cases (accepts (o.namespace ++ codes "/" ++ o.name))) [
        | inl e ↦
            let written = record o {
              state = import_state admits readable accepts at o;
              service_ref = service_key o;
            } in
            rw (reconcile_import_accepted at o e) (
              reconcile_import_accepted services written e
              ∙ ap (λ s. record o { state = s; service_ref = service_key o }) h)
        | inr e ↦ rw (reconcile_import_refused at o e) (reconcile_import_refused services o e)
      ]

  module _ (services at : Dict Service) (o : Import)
      (same : o.suspended ≡ false
        → get services (service_key o)
          ≡ get (services_after admits readable accepts at o) (service_key o)) where
    services_again : services_after admits readable accepts services o ≡ services
    unfolding IsClosed services_after
    services_again = elim (Bool-cases o.suspended) [
      | inl e ↦ ground (arith, e)
      | inr e ↦
          let after = services_after admits readable accepts at o in
          let closed = creates-get after services (service_key o) (same e) ∙ closes at o e in
          ground (arith, e, closed)
    ]

    import_state_again :
        import_state admits readable accepts services o ≡ import_state admits readable accepts at o
    unfolding import_state
    import_state_again = elim (Bool-cases o.suspended) [
      | inl e ↦ ground (arith, e)
      | inr e ↦
          let after = services_after admits readable accepts at o in
          import_state-get after services o (same e) ∙ import_state-services_after at o
    ]

  reconcile_imports_from :
      (services at : Dict Service) (l : List Import)
      → services ≡ (reconcile_imports admits readable accepts at l).0
      → reconcile_imports admits readable accepts services
          (reconcile_imports admits readable accepts at l).1
        ≡ (services, (reconcile_imports admits readable accepts at l).1)
  unfolding reconcile_imports
  reconcile_imports_from services at [] h = refl
  reconcile_imports_from services at (o ∷ l) h =
      let after = services_after admits readable accepts at o in
      let same : o.suspended ≡ false → get services (service_key o) ≡ get after (service_key o) =
        λ e. ap (λ s. get s (service_key o)) h ∙ final at o l e in
      let step =
        services_after-reconcile_import services at o ∙ services_again services at o same in
      let kept =
        reconcile_import-reconcile_import services at o (import_state_again services at o same) in
      rw step (rw kept (rw (reconcile_imports_from services after l h) refl))

  -- A second pass over the imports changes nothing.
  pub reconcile_imports-reconcile_imports :
      (services : Dict Service) (l : List Import)
      → reconcile_imports admits readable accepts
          (reconcile_imports admits readable accepts services l).0
          (reconcile_imports admits readable accepts services l).1
        ≡ reconcile_imports admits readable accepts services l
  reconcile_imports-reconcile_imports services l =
      let pass = reconcile_imports admits readable accepts services l in
      reconcile_imports_from pass.0 services l refl
