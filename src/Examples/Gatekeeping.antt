-- ===== src/Examples/Gatekeeping.antt =====
-- The gateway's theorems at a concrete configuration.
use among_clusters.Prelude.{◌≡◌, ◌≢◌, ◌⊎◌, ◌↔◌, refl, true, some, List, [], ◌∷◌, ◌++◌, In, arith}
use among_clusters.Text
use among_clusters.Text.{Text, codes, ◌==◌}
use among_clusters.Dict
use among_clusters.Dict.{Dict}
use among_clusters.Gateway
use among_clusters.Gateway.{
  ExportRoute, Registry, Outcome, joined, answered, read_frame, write_frame, handle_export,
  load_routes, heartbeat_identity, acknowledged, route_allows_identity, sessions, put_session,
  get_session, remove_session, new_registry,
}
use among_clusters.Gateway.Sessions.{opened, ended, all_happen, ended_session}
use among_clusters.Gateway.Frames.{read_frame-write_frame}
use among_clusters.Gateway.Exports.{
  Advertised, Allowed, handle_export-joined, route_allows_identity_iff,
}

abbrev route : ExportRoute
route = record {
  service_identity = codes "svc";
  target = codes "svc:443";
  target_peers = codes "beta" ∷ [];
}

abbrev peers : Dict (List Text)
peers = Dict.put Dict.empty (codes "beta") (codes "spiffe://beta/" ∷ [])

abbrev routes : Dict ExportRoute
routes = Dict.put Dict.empty (codes "svc") route

abbrev stream : Text
stream = write_frame (codes "svc") ++ codes "hi"

unfoldable gateway_code : Unit {0}
unfolding ◌==◌ Text.is_empty Text.trim_slash Text.trim_prefix Dict.empty Dict.get Dict.put
    Dict.remove Gateway.new_registry Gateway.canonical_identity Gateway.sessions_at Gateway.sessions
    Gateway.put_session Gateway.get_session Gateway.write_frame Gateway.read_frame
    Gateway.load_routes Gateway.overlay Gateway.identities_of Gateway.any_identity Gateway.any_peer
    Gateway.route_allows_identity Gateway.export_to Gateway.handle_export Gateway.drop_first
    Gateway.store_sessions Gateway.remove_session
gateway_code = tt

loads : load_routes Dict.empty (route ∷ []) ≡ some routes
unfolding gateway_code
loads = refl

joins :
    handle_export routes [] peers (codes "spiffe://beta") stream
    ≡ joined (codes "svc:443") (codes "hi")
unfolding gateway_code
joins = refl

handle_export-joined_example :
    (identity : Text) × (found : ExportRoute) × (read_frame stream ≡ some (identity, codes "hi"))
    × (identity ≢ heartbeat_identity)
    × (Advertised [] identity found ⊎ Advertised (route ∷ []) identity found)
    × Allowed (codes "spiffe://beta") peers found
    × (codes "svc:443" ≡ found.target)
handle_export-joined_example =
    handle_export-joined peers (codes "spiffe://beta") (codes "svc:443") (codes "hi") (route ∷ [])
      [] routes stream loads joins

route_allows_identity_iff_example :
    (route_allows_identity route peers (codes "spiffe://beta") ≡ true)
    ↔ Allowed (codes "spiffe://beta") peers route
route_allows_identity_iff_example = route_allows_identity_iff route peers (codes "spiffe://beta")

-- The wildcard admits a peer that no list names.
wildcard :
    route_allows_identity
      (record route { target_peers = codes "*" ∷ [] })
      peers
      (codes "spiffe://x")
    ≡ true
unfolding gateway_code
wildcard = refl

read_frame-write_frame_example : read_frame stream ≡ some (codes "svc", codes "hi")
read_frame-write_frame_example =
    read_frame-write_frame (codes "svc") (codes "hi") (omega arith) (omega arith)

no_sessions : (j : Text) → ¬ In 1 (sessions new_registry j)
unfolding gateway_code
no_sessions j h = h

ended_session_example :
    get_session
      (all_happen
        (remove_session
          (all_happen
            (put_session new_registry (codes "spiffe://beta/") 1)
            (opened (codes "spiffe://beta") 2 ∷ []))
          (codes "spiffe://beta/")
          1)
        (ended (codes "spiffe://beta") 2 ∷ []))
      (codes "spiffe://beta")
    ≢ some 1
ended_session_example =
    ended_session 1 new_registry (codes "spiffe://beta/") (opened (codes "spiffe://beta") 2 ∷ [])
      (ended (codes "spiffe://beta") 2 ∷ []) no_sessions ((λ e. omega (arith, e)), tt) (tt, tt)
      (codes "spiffe://beta")
