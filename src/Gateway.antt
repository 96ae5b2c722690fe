-- ===== src/Gateway.antt =====
-- cmd/gateway/main.go: the registry of peer sessions, the identity frames on a stream, and the
-- decisions on exports and imports. A connection is a number that names it (the source compares
-- pointers); a stream is the bytes that arrive on it. Sockets, TLS and the copying of bytes between
-- the two ends are not modelled.
pub mod Sessions
pub mod Frames
pub mod Exports
use among_clusters.Prelude.{
  ℕ, suc, ◌+◌, ◌*◌, ◌/◌, ◌%◌, ◌^◌, ◌≡◌, Bool, true, false, not, ◌&&◌, ◌||◌, Option, none, some,
  List, [], ◌∷◌, ◌++◌, ltb, leb, nat_eq, length, take, drop, if◌then◌else◌,
}
use among_clusters.Text.{Text, codes, ◌==◌, is_empty, trim_slash, trim_prefix}
use among_clusters.Dict
use among_clusters.Dict.{Dict, get, put, remove}

pub record ExportRoute : Type 0 where
  pub service_identity : Text
  pub target : Text
  pub target_peers : List Text

pub record ImportRoute : Type 0 where
  pub listen : Text
  pub endpoint : Text
  pub service_identity : Text
  pub expected_spiffe_id : Text
  pub session_only : Bool

abbrev pub Connection : Type 0
Connection = ℕ

-- sessionRegistry
abbrev pub Registry : Type 0
Registry = Dict (List Connection)

unfoldable pub new_registry : Registry
new_registry = Dict.empty

unfoldable pub canonical_identity : Text → Text
canonical_identity identity = trim_slash identity

-- r.sessions[key], which is empty where the key is missing.
unfoldable pub sessions_at : Registry → Text → List Connection
sessions_at r key = elim (get r key) [ none ↦ [] | some connections ↦ connections ]

unfoldable pub sessions : Registry → Text → List Connection
sessions r identity = sessions_at r (canonical_identity identity)

unfoldable pub put_session : Registry → Text → Connection → Registry
put_session r identity connection =
    put r (canonical_identity identity) (sessions r identity ++ connection ∷ [])

unfoldable pub get_session : Registry → Text → Option Connection
get_session r identity = elim (sessions r identity) [ [] ↦ none | ◌∷◌ c l ↦ some c ]

unfoldable pub has_session : Registry → Text → Bool
has_session r identity = elim (sessions r identity) [ [] ↦ false | ◌∷◌ c l ↦ true ]

-- The loop of remove: the first occurrence goes.
unfoldable pub drop_first : Connection → List Connection → List Connection
drop_first connection [] = []
drop_first connection (c ∷ l) =
    let rest = drop_first connection l in if nat_eq c connection then l else c ∷ rest

-- An entry that becomes empty is deleted.
unfoldable pub store_sessions : Registry → Text → List Connection → Registry
store_sessions r key [] = remove r key
store_sessions r key (c ∷ l) = put r key (c ∷ l)

unfoldable pub remove_session : Registry → Text → Connection → Registry
remove_session r identity connection =
    store_sessions r (canonical_identity identity) (drop_first connection (sessions r identity))

-- /readyz answers 204 if the identity is given and has a session.
unfoldable pub ready : Registry → Text → Bool
ready r identity = not (is_empty identity || not (has_session r identity))

abbrev pub heartbeat_identity : Text
heartbeat_identity = codes "among-clusters.internal/session-heartbeat"

-- The length as two bytes, the high one first, then the identity. The length is cut to 16 bits.
unfoldable pub write_frame : Text → Text
write_frame identity = let size = length identity % 2 ^ 16 in size / 256 ∷ size % 256 ∷ identity

-- The identity and the bytes behind it; none where the frame is refused or the stream ends early.
unfoldable pub read_frame : Text → Option (Text × Text)
read_frame [] = none
read_frame (hi ∷ []) = none
read_frame (hi ∷ lo ∷ rest) =
    let size = hi * 256 + lo in
    if nat_eq size 0 || ltb 2048 size
    then none
    else if ltb (length rest) size
    then none
    else some (take size rest, drop size rest)

-- The routes of EXPORTS_JSON by their service identity; none where the program stops.
unfoldable pub load_routes : Dict ExportRoute → List ExportRoute → Option (Dict ExportRoute)
load_routes routes [] = some routes
load_routes routes (route ∷ l) =
    let rest = load_routes (put routes route.service_identity route) l in
    if is_empty route.service_identity || is_empty route.target then none else rest

-- The routes of the exports file laid over the others.
unfoldable pub overlay : Dict ExportRoute → List ExportRoute → Dict ExportRoute
overlay routes [] = routes
overlay routes (route ∷ l) = overlay (put routes route.service_identity route) l

-- peerIdentities[peer]
unfoldable pub identities_of : Dict (List Text) → Text → List Text
identities_of peers peer = elim (get peers peer) [ none ↦ [] | some l ↦ l ]

unfoldable pub any_identity : Text → List Text → Bool
any_identity identity [] = false
any_identity identity (allowed ∷ l) =
    (trim_slash allowed == trim_slash identity) || any_identity identity l

unfoldable pub any_peer : Dict (List Text) → Text → List Text → Bool
any_peer peers identity [] = false
any_peer peers identity (peer ∷ l) =
    (peer == codes "*")
    || any_identity identity (identities_of peers peer)
    || any_peer peers identity l

-- routeAllowsIdentity
unfoldable pub route_allows_identity : ExportRoute → Dict (List Text) → Text → Bool
route_allows_identity route peers identity = any_peer peers identity route.target_peers

-- What becomes of a stream: it is closed, answered with the bytes, or joined to the target, to which
-- the bytes go first.
pub data Outcome : Type 0 where
  closed : Outcome
  answered : Text → Outcome
  joined : Text → Text → Outcome

unfoldable pub export_to : Dict (List Text) → Text → Text → Option ExportRoute → Outcome
export_to peers peer_identity rest none = closed
export_to peers peer_identity rest (some route) =
    if route_allows_identity route peers peer_identity then joined route.target rest else closed

-- handleExport; `file` are the routes that EXPORTS_FILE holds at that moment.
unfoldable pub handle_export :
    Dict ExportRoute → List ExportRoute → Dict (List Text) → Text → Text → Outcome
handle_export routes file peers peer_identity stream = elim (read_frame stream) [
  | none ↦ closed
  | some (identity, rest) ↦
      if identity == heartbeat_identity
      then answered (1 ∷ [])
      else export_to peers peer_identity rest (get (overlay routes file) identity)
]

-- What the dialer makes of the answer to a heartbeat: does the connection stay?
unfoldable pub acknowledged : Text → Bool
acknowledged [] = false
acknowledged (c ∷ l) = nat_eq c 1

-- How an import reaches its peer.
pub data PeerPath : Type 0 where
  refused : PeerPath
  session : Connection → PeerPath
  dial : Text → PeerPath

-- proxyImport, up to the stream.
unfoldable pub path_to_peer : Registry → ImportRoute → PeerPath
path_to_peer r route = elim (get_session r route.expected_spiffe_id) [
  | some c ↦ session c
  | none ↦
      if route.session_only
      then refused
      else if is_empty route.endpoint
      then refused
      else dial (trim_prefix route.endpoint (codes "quic://"))
]

-- VerifyConnection of the dialing side: `certificate` are the URIs of the first certificate, and
-- `chain` tells whether the chain leads to a root.
unfoldable pub accepts_peer : Bool → Option (List Text) → Text → Bool
accepts_peer chain none expected = false
accepts_peer chain (some []) expected = false
accepts_peer chain (some (uri ∷ [])) expected = chain && (trim_slash uri == trim_slash expected)
accepts_peer chain (some (uri ∷ other ∷ l)) expected = false

-- The identity of a peer that connects, from the URIs of its first certificate.
unfoldable pub caller_identity : Option (List Text) → Option Text
caller_identity none = none
caller_identity (some []) = none
caller_identity (some (uri ∷ [])) = some (canonical_identity uri)
caller_identity (some (uri ∷ other ∷ l)) = none
