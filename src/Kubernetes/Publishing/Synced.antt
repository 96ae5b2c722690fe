-- ===== src/Kubernetes/Publishing/Synced.antt =====
-- What the loop of a sync that succeeds has written, and what the revocations leave.
use mathlib.Core.Option
use among_clusters.Prelude.{
  ℕ, ◌≡◌, ◌⊎◌, refl, sym, ap, ◌∙◌, subst, inl, inr, true, false, Option, none, some, List, [], ◌∷◌,
  arith, Bool-cases,
}
use among_clusters.Text.{Text, ◌==◌}
use among_clusters.Text.Equality.{eq_iff}
use among_clusters.Time.{Time}
use among_clusters.Dict
use among_clusters.Dict.{get-put, get-map}
use among_clusters.Model.{IdentityRegistration, AdvertisedService}
use among_clusters.Result.{Result, ok, err}
use among_clusters.Reconciler.{Rfc3339}
use among_clusters.Kubernetes.Namespace
use among_clusters.Kubernetes.Namespace.{
  Policy, PeerResource, ServiceAdvertisement, Answers, contains_string, read,
}
use among_clusters.Kubernetes.Advertising.{advertisement_of}
use among_clusters.Kubernetes.Advertising.Names.{advertisement_name}
use among_clusters.Kubernetes.Publishing.Entry.{
  IsPublished, advertisement_of_lem, sync_service_entry,
}
use among_clusters.Kubernetes.Publishing.{
  withdraw, sync_service, sync_services, revoke_rest, after_services,
}

module _ (answers : Answers) where
  module _ (layout : Rfc3339) (now : Time) (issuer : Text) (identity : IdentityRegistration)
      (count : ℕ) where
    abbrev pub Publishes :
        Namespace.Namespace → List AdvertisedService → Text → Option ServiceAdvertisement → Type 0
    Publishes a services name entry =
        IsPublished layout now issuer identity count a.policies a.peers services name entry

    abbrev pub looped :
        List AdvertisedService → Namespace.Namespace → Result (List Text) × Namespace.Namespace
    looped vs a = sync_services answers layout now issuer identity count vs a

    -- One step of a loop that ends without an error.
    looped_parts :
        (v : AdvertisedService) (vs : List AdvertisedService) (a b c t : Namespace.Namespace)
        (names : List Text) (first : Result (Unit {0})) (rest : Result (List Text))
        → sync_service answers layout now issuer identity count v a ≡ (first, b)
        → looped vs b ≡ (rest, c)
        → looped (v ∷ vs) a ≡ (ok names, t)
        → (first ≡ ok tt)
          × (seen : List Text) × (rest ≡ ok seen)
          × (c ≡ t)
          × (names ≡ advertisement_name issuer v ∷ seen)
    unfolding sync_services
    looped_parts v vs a b c t names (ok u) (ok seen) e f h =
        (refl, seen, refl, ground (arith, e, f, h), ground (arith, e, f, h))
    looped_parts v vs a b c t names (ok u) (err x) e f h = absurd (ground (arith, e, f, h))
    looped_parts v vs a b c t names (err x) r e f h = absurd (ground (arith, e, h))

    looped_nil :
        (a t : Namespace.Namespace) (names : List Text)
        → looped [] a ≡ (ok names, t)
        → (names ≡ []) × (a ≡ t)
    unfolding sync_services
    looped_nil a t names h = ground (arith, h)

    more :
        (a : Namespace.Namespace) (v : AdvertisedService) (vs : List AdvertisedService)
        (name : Text) (entry : Option ServiceAdvertisement)
        → Publishes a vs name entry
        → Publishes a (v ∷ vs) name entry
    more a v vs name entry p = record {
      service = p.service;
      targets = p.targets;
      listed = inr p.listed;
      named = p.named;
      allowed = p.allowed;
      stored = p.stored;
    }

    -- A name that the loop has seen, and one that it has not.
    abbrev pub IsLooped :
        List AdvertisedService → Namespace.Namespace → List Text → Namespace.Namespace → Type 0
    IsLooped vs a names t =
        (name : Text)
        → ((contains_string names name ≡ true)
            × Publishes a vs name (Dict.get t.advertisements name))
          ⊎ ((contains_string names name ≡ false)
              × (Dict.get t.advertisements name ≡ Dict.get a.advertisements name))

    IsLooped-step :
        (v : AdvertisedService) (vs : List AdvertisedService) (a b t : Namespace.Namespace)
        (seen : List Text)
        → sync_service answers layout now issuer identity count v a ≡ (ok tt, b)
        → IsLooped vs b seen t
        → IsLooped (v ∷ vs) a (advertisement_name issuer v ∷ seen) t
    unfolding contains_string
    IsLooped-step v vs a b t seen e ih name =
        let (targets, allowed, (ads, policies, peers)) =
          sync_service_entry answers layout now issuer identity count v a b e in
        let put =
          get-put a.advertisements (advertisement_name issuer v) name
            (advertisement_of layout now issuer identity v targets) in
        elim (ih name) [
          | inl (known, published) ↦ inl (
            ground (arith, known),
            more a v vs name (Dict.get t.advertisements name) (
                subst
                  (λ d.
                    IsPublished layout now issuer identity count d a.peers vs name
                      (Dict.get t.advertisements name))
                  policies
                  (subst
                    (λ l.
                      IsPublished layout now issuer identity count b.policies l vs name
                        (Dict.get t.advertisements name))
                    peers published)),
          )
          | inr (unknown, kept) ↦ elim (Bool-cases (advertisement_name issuer v == name)) [
            | inl same ↦
                let written : Dict.get t.advertisements name
                    ≡ some (advertisement_of layout now issuer identity v targets) =
                  ground (arith, kept, ads, put, same) in
                inl (
                  ground (arith, same),
                  record {
                    service = v;
                    targets = targets;
                    listed = inl refl;
                    named = (eq_iff (advertisement_name issuer v) name).0 same;
                    allowed = allowed;
                    stored =
                        written
                        ∙ ap some (advertisement_of_lem layout now issuer identity v targets);
                  },
                )
            | inr other ↦
                inr (ground (arith, unknown, other), ground (arith, kept, ads, put, other))
          ]
        ]

    pub looped-IsLooped :
        (vs : List AdvertisedService) (a t : Namespace.Namespace) (names : List Text)
        → looped vs a ≡ (ok names, t)
        → IsLooped vs a names t
    unfolding contains_string
    looped-IsLooped [] a t names h =
        let (nothing, same) = looped_nil a t names h in
        λ name. inr (ground (arith, nothing), ground (arith, same))
    looped-IsLooped (v ∷ vs) a t names h =
        let first = sync_service answers layout now issuer identity count v a in
        let rest = looped vs first.1 in
        let (done, seen, more_done, same, all) =
          looped_parts v vs a first.1 rest.1 t names first.0 rest.0 refl refl h in
        let ih = looped-IsLooped vs first.1 t seen (λ i. (more_done i, same i)) in
        subst (λ l. IsLooped (v ∷ vs) a l t) (sym all)
          (IsLooped-step v vs a first.1 t seen (λ i. (done i, first.1)) ih)

    -- The names of the loop, and the namespace between the loop and the revocations.
    pub services_parts :
        (o : Result (List Text) × Namespace.Namespace) (t : Namespace.Namespace)
        → after_services answers issuer o ≡ (ok tt, t)
        → (seen : List Text) × (b : Namespace.Namespace) × (o ≡ (ok seen, b))
          × (t.advertisements ≡ Dict.map (withdraw answers issuer seen) b.advertisements)
    unfolding after_services revoke_rest
    services_parts (ok seen, b) t h = (seen, b, refl, ground (arith, h))
    services_parts (err e, b) t h = absurd (ground (arith, h))

    pub kept_by_withdraw :
        (seen : List Text) (name : Text) (o : Option ServiceAdvertisement)
        (a : ServiceAdvertisement)
        → Option.map (withdraw answers issuer seen name) o ≡ some a
        → a.publisher ≡ issuer
        → a.revoked ≡ false
        → answers.writes Namespace.advertisement name ≡ true
        → (o ≡ some a) × (contains_string seen name ≡ true)
    unfolding withdraw
    kept_by_withdraw seen name none a h p r w = absurd cc
    kept_by_withdraw seen name (some b) a h p r w =
        ground (arith, h, p, r, w, eq_iff b.publisher issuer)
