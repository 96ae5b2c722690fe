-- ===== src/Agent/Services.antt =====
-- cmd/agent/main.go: the services that the agent advertises (splitValues, advertisedServices) and the routes
-- that it gives to the gateway (writeGatewayRoutes).
use among_clusters.Prelude.{
  ℕ, ◌+◌, ◌*◌, ◌-◌, ◌^◌, Bool, true, false, not, ◌&&◌, ◌||◌, Option, none, some, List, [], ◌∷◌,
  ◌++◌, nat_eq, leb, ltb, map, if◌then◌else◌,
}
use among_clusters.Prelude.Int.{ℤ, pos, negsuc, ltb_ℤ}
use among_clusters.Text.{Text, trim_space, codes, ◌==◌, is_empty, split, contains}
use among_clusters.Model.{AdvertisedService}
use among_clusters.Gateway.{ExportRoute}
use among_clusters.Agent.{Agent, format_int}

pub record ServicePort : Type 0 where
  pub name : Text
  pub port : ℤ

-- A Service of the agent's cluster; an annotation that is absent is read as empty.
pub record ClusterService : Type 0 where
  pub name : Text
  pub namespace : Text
  pub generation : ℤ
  pub cluster_ip : Text
  pub ports : List ServicePort
  pub protocol : Text
  pub service_class : Text
  pub policy_ref : Text
  pub target_peers : Text
  pub port_name : Text
  pub ttl_seconds : Text

trimmed : List Text → List Text
trimmed [] = []
trimmed (item ∷ items) =
    let rest = trimmed items in
    let value = trim_space item in if is_empty value then rest else value ∷ rest

-- splitValues
unfoldable pub split_values : Text → List Text
unfolding trimmed
split_values value = trimmed (split value b',')

-- The number that digits make after `n`.
read_digits : ℕ → Text → Option ℕ
read_digits n [] = some n
read_digits n (c ∷ s) =
    let rest = read_digits (n * 10 + (c - b'0')) s in
    if leb b'0' c && leb c b'9' then rest else none

unfoldable pub digits_value : Text → Option ℕ
unfolding read_digits
digits_value [] = none
digits_value (c ∷ s) = read_digits 0 (c ∷ s)

-- The int64 of a sign and an absolute value, if it is in range.
unfoldable pub in_int64 : Bool → Option ℕ → Option ℤ
in_int64 negative none = none
in_int64 true (some ℕ.zero) = some (pos 0)
in_int64 true (some (ℕ.suc n)) = if ltb n (2 ^ 63) then some (negsuc n) else none
in_int64 false (some n) = if ltb n (2 ^ 63) then some (pos n) else none

-- strconv.ParseInt(s, 10, 64); none is an error.
unfoldable pub parse_int : Text → Option ℤ
unfolding digits_value in_int64
parse_int [] = none
parse_int (c ∷ s) =
    if nat_eq c b'-'
    then in_int64 true (digits_value s)
    else if nat_eq c b'+'
    then in_int64 false (digits_value s)
    else in_int64 false (digits_value (c ∷ s))

-- The loop over the ports, with the port that is selected so far.
unfoldable pub select_port : Text → Option ServicePort → List ServicePort → Option ServicePort
select_port name selected [] = selected
select_port name selected (p ∷ ps) =
    let matches = not (is_empty name) && (p.name == name) in
    let next : Option ServicePort = elim selected [
      | none ↦ some p
      | some q ↦ if matches then some p else some q
    ] in
    let rest = select_port name next ps in if matches then next else rest

-- net.JoinHostPort
unfoldable pub join_host_port : Text → Text → Text
join_host_port host port =
    if contains host (codes ":")
    then codes "[" ++ (host ++ (codes "]:" ++ port))
    else host ++ (codes ":" ++ port)

-- "%s.%s.svc:%d"
unfoldable pub service_host : Text → Text → ℤ → Text
service_host name namespace port =
    name ++ (codes "." ++ (namespace ++ (codes ".svc:" ++ format_int port)))

unfoldable pub gateway_target : ClusterService → ServicePort → Text
unfolding join_host_port service_host
gateway_target v p =
    if not (is_empty v.cluster_ip) && not (v.cluster_ip == codes "None")
    then join_host_port v.cluster_ip (format_int p.port)
    else service_host v.name v.namespace p.port

-- A lifetime that is absent, malformed or below half a minute is a minute.
unfoldable pub ttl_of : Text → ℤ
unfolding parse_int
ttl_of text = elim (parse_int text) [
  | none ↦ pos 60
  | some ttl ↦ if ltb_ℤ ttl (pos 30) then pos 60 else ttl
]

-- The loop's body: the advertised service, or none where the loop continues.
unfoldable pub advertised : ClusterService → Option AdvertisedService
unfolding split_values select_port gateway_target ttl_of
advertised v =
    let targets = split_values v.target_peers in
    if is_empty v.protocol
      || (is_empty v.service_class
          || (is_empty v.policy_ref || (elim targets [ [] ↦ true | _ ∷ _ ↦ false ])))
    then none
    else elim (select_port v.port_name none v.ports) [
      | none ↦ none
      | some p ↦ some (record {
        name = v.name;
        namespace = v.namespace;
        service_class = v.service_class;
        protocol = v.protocol;
        port = p.port;
        target_peers = targets;
        ttl_seconds = ttl_of v.ttl_seconds;
        policy_ref = v.policy_ref;
        generation = if ltb_ℤ v.generation (pos 1) then pos 1 else v.generation;
        gateway_target = gateway_target v p;
      })
    ]

-- advertisedServices, for the services that the list call returns.
unfoldable pub advertised_services : List ClusterService → List AdvertisedService
unfolding advertised
advertised_services [] = []
advertised_services (v ∷ vs) =
    let rest = advertised_services vs in elim (advertised v) [ none ↦ rest | some s ↦ s ∷ rest ]

-- The loop's body of writeGatewayRoutes.
unfoldable pub route_of : Agent → AdvertisedService → ExportRoute
unfolding service_host
route_of a v = record {
  service_identity =
      codes "spiffe://"
      ++ (a.trust_domain ++ (codes "/ns/" ++ (v.namespace ++ (codes "/service/" ++ v.name))));
  target =
      if is_empty v.gateway_target
      then service_host v.name v.namespace v.port
      else v.gateway_target;
  target_peers = v.target_peers;
}

-- The routes of writeGatewayRoutes.
unfoldable pub gateway_routes : Agent → List AdvertisedService → List ExportRoute
unfolding route_of
gateway_routes a services = map (route_of a) services
