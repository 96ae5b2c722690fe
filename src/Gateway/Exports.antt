-- ===== src/Gateway/Exports.antt =====
-- Exports: a stream reaches a target only by a route that is advertised and meant for the caller.
use among_clusters.Prelude.{
  ◌≡◌, ◌≢◌, refl, sym, ap, ◌∙◌, ◌↔◌, ◌⊎◌, inl, inr, true, Option, none, some, List, [], ◌∷◌, In,
  arith, Bool-cases, Option-cases, subst,
}
use among_clusters.Text.{Text, codes, ◌==◌, trim_slash}
use among_clusters.Text.Equality.{eq_iff}
use among_clusters.Dict
use among_clusters.Dict.{Dict, get, put, get-put, get-empty}
use among_clusters.Gateway.{
  ExportRoute, joined, read_frame, handle_export, heartbeat_identity, overlay, load_routes,
  identities_of, any_identity, any_peer, route_allows_identity, export_to,
}

module _ (identity : Text) where
  -- The list has the identity, up to a slash at the end.
  abbrev pub Listed : List Text → Type 0
  Listed l = (allowed : Text) × In allowed l × (trim_slash allowed ≡ trim_slash identity)

  any_identity-Listed : (l : List Text) → any_identity identity l ≡ true → Listed l
  unfolding any_identity
  any_identity-Listed [] h = cc
  any_identity-Listed (a ∷ l) h = elim (Bool-cases (trim_slash a == trim_slash identity)) [
    | inl e ↦ (a, inl refl, (eq_iff (trim_slash a) (trim_slash identity)).0 e)
    | inr e ↦
        let found = any_identity-Listed l (ground (arith, h, e)) in (found.0, inr found.1, found.2)
  ]

  Listed-any_identity : (l : List Text) → Listed l → any_identity identity l ≡ true
  unfolding any_identity
  Listed-any_identity [] (b, m, k) = absurd m
  Listed-any_identity (a ∷ l) (b, inl e, k) =
      let first = (eq_iff (trim_slash a) (trim_slash identity)).1 (ap trim_slash (sym e) ∙ k) in
      ground (arith, first)
  Listed-any_identity (a ∷ l) (b, inr m, k) =
      let later = Listed-any_identity l (b, m, k) in ground (arith, later)

  module _ (peers : Dict (List Text)) where
    -- The peer is the wildcard, or its identities have this one.
    abbrev pub Admits : Text → Type 0
    Admits peer = (peer ≡ codes "*") ⊎ Listed (identities_of peers peer)

    any_peer-Admits :
        (l : List Text) → any_peer peers identity l ≡ true → (peer : Text) × In peer l × Admits peer
    unfolding any_peer
    any_peer-Admits [] h = cc
    any_peer-Admits (p ∷ l) h = elim (Bool-cases (p == codes "*")) [
      | inl e ↦ (p, inl refl, inl ((eq_iff p (codes "*")).0 e))
      | inr e ↦ elim (Bool-cases (any_identity identity (identities_of peers p))) [
        | inl d ↦ (p, inl refl, inr (any_identity-Listed (identities_of peers p) d))
        | inr d ↦
            let found = any_peer-Admits l (ground (arith, h, e, d)) in
            (found.0, inr found.1, found.2)
      ]
    ]

    Admits-any_peer :
        (l : List Text) (peer : Text) → In peer l → Admits peer → any_peer peers identity l ≡ true
    unfolding any_peer
    Admits-any_peer [] peer m h = absurd m
    Admits-any_peer (p ∷ l) peer (inl e) (inl w) =
        let wild = (eq_iff p (codes "*")).1 (sym e ∙ w) in ground (arith, wild)
    Admits-any_peer (p ∷ l) peer (inl e) (inr k) =
        let listed =
          Listed-any_identity (identities_of peers p)
            (subst (λ q. Listed (identities_of peers q)) e k) in
        ground (arith, listed)
    Admits-any_peer (p ∷ l) peer (inr m) h =
        let later = Admits-any_peer l peer m h in ground (arith, later)

    -- One of the route's target peers admits the identity.
    abbrev pub Allowed : ExportRoute → Type 0
    Allowed route = (peer : Text) × In peer route.target_peers × Admits peer

-- A route is open to an identity exactly if one of its target peers is the wildcard or lists that
-- identity, up to a slash at the end.
pub route_allows_identity_iff :
    (route : ExportRoute) (peers : Dict (List Text)) (identity : Text)
    → (route_allows_identity route peers identity ≡ true) ↔ Allowed identity peers route
unfolding route_allows_identity
route_allows_identity_iff route peers identity = (
  (λ h. any_peer-Admits identity peers route.target_peers h),
  (λ h. Admits-any_peer identity peers route.target_peers h.0 h.1 h.2),
)

-- The route stands in the list, for the service.
abbrev pub Advertised : List ExportRoute → Text → ExportRoute → Type 0
Advertised l identity route = In route l × (route.service_identity ≡ identity)

module _ (identity : Text) (route : ExportRoute) where
  put_source :
      (routes : Dict ExportRoute) (r : ExportRoute)
      → get (put routes r.service_identity r) identity ≡ some route
      → ((r ≡ route) × (r.service_identity ≡ identity)) ⊎ (get routes identity ≡ some route)
  put_source routes r h =
      let law = get-put routes r.service_identity identity r in
      elim (Bool-cases (r.service_identity == identity)) [
        | inl d ↦
            let same : r ≡ route = ground (arith, law, d, h) in
            inl (same, (eq_iff r.service_identity identity).0 d)
        | inr d ↦ inr (ground (arith, law, d, h))
      ]

  overlay_source :
      (routes : Dict ExportRoute) (l : List ExportRoute)
      → get (overlay routes l) identity ≡ some route
      → Advertised l identity route ⊎ (get routes identity ≡ some route)
  unfolding overlay
  overlay_source routes [] h = inr h
  overlay_source routes (r ∷ l) h = elim (overlay_source (put routes r.service_identity r) l h) [
    | inl m ↦ inl (inr m.0, m.1)
    | inr e ↦ elim (put_source routes r e) [
      | inl d ↦ inl (inl (sym d.0), ap (λ q. q.service_identity) (sym d.0) ∙ d.1)
      | inr d ↦ inr d
    ]
  ]

load_routes_lem :
    (routes loaded : Dict ExportRoute) (l : List ExportRoute)
    → load_routes routes l ≡ some loaded
    → overlay routes l ≡ loaded
unfolding overlay load_routes
load_routes_lem routes loaded [] h = cc
load_routes_lem routes loaded (r ∷ l) h =
    load_routes_lem (put routes r.service_identity r) loaded l (ground (arith, h))

module _ (identity : Text) (route : ExportRoute) (exports : List ExportRoute) where
  -- A route that the overlay has stands in the exports file or in the configuration.
  resolved_source :
      (routes : Dict ExportRoute) (file : List ExportRoute)
      → load_routes Dict.empty exports ≡ some routes
      → get (overlay routes file) identity ≡ some route
      → Advertised file identity route ⊎ Advertised exports identity route
  resolved_source routes file loaded h = elim (overlay_source identity route routes file h) [
    | inl m ↦ inl m
    | inr e ↦
        elim (overlay_source identity route Dict.empty exports
          (ap (λ d. get d identity) (load_routes_lem Dict.empty routes exports loaded) ∙ e)) [
            | inl m ↦ inr m
            | inr f ↦
                let nothing : get Dict.empty identity ≡ none =
                  get-empty {V = ExportRoute} identity in
                absurd (ground (arith, nothing, f))
          ]
  ]

module _ (peers : Dict (List Text)) (peer target rest : Text) where
  export_to_source :
      (after : Text) (found : Option ExportRoute)
      → export_to peers peer after found ≡ joined target rest
      → (route : ExportRoute) × (found ≡ some route)
        × (route_allows_identity route peers peer ≡ true)
        × (target ≡ route.target)
        × (after ≡ rest)
  unfolding export_to
  export_to_source after none h = cc
  export_to_source after (some route) h =
      elim (Bool-cases (route_allows_identity route peers peer)) [
        | inl e ↦ (route, refl, e, ground (arith, h, e), ground (arith, h, e))
        | inr e ↦ absurd (ground (arith, h, e))
      ]

  -- If a stream is joined to a target, then it began with the frame of a service that is not the
  -- heartbeat, the target is that of a route for this service, the route stands in the exports file
  -- or in the configuration that was loaded, and one of the route's target peers admits the caller;
  -- the target gets the bytes behind the frame.
  pub handle_export-joined :
      (exports file : List ExportRoute) (routes : Dict ExportRoute) (stream : Text)
      → load_routes Dict.empty exports ≡ some routes
      → handle_export routes file peers peer stream ≡ joined target rest
      → (identity : Text) × (route : ExportRoute) × (read_frame stream ≡ some (identity, rest))
        × (identity ≢ heartbeat_identity)
        × (Advertised file identity route ⊎ Advertised exports identity route)
        × Allowed peer peers route
        × (target ≡ route.target)
  unfolding handle_export
  handle_export-joined exports file routes stream loaded h =
      elim (Option-cases (read_frame stream)) [
        | inl e ↦ absurd (ground (arith, h, e))
        | inr ((identity, after), e) ↦ elim (Bool-cases (identity == heartbeat_identity)) [
          | inl d ↦ absurd (ground (arith, h, e, d))
          | inr d ↦
              let found =
                export_to_source after (get (overlay routes file) identity)
                  (ground (arith, h, e, d)) in
              (
                identity,
                found.0,
                e ∙ ap (λ z. some (identity, z)) found.4,
                (λ k. ground (arith, d, (eq_iff identity heartbeat_identity).1 k)),
                resolved_source identity found.0 exports routes file loaded found.1,
                (route_allows_identity_iff found.0 peers peer).0 found.2,
                found.3,
              )
        ]
      ]
