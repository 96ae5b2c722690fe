-- ===== src/Agent.antt =====
-- cmd/agent/main.go: the agent of a cluster. Its state is the configuration, the private key and the sequence
-- number of its messages, which is a uint64. The calls of HTTP and of the Kubernetes API are arguments.
pub mod Identity
pub mod Numbers
pub mod Messages
pub mod Services
pub mod Access
pub mod Heartbeat
use among_clusters.Prelude.{
  ℕ, zero, suc, ◌+◌, ◌*◌, ◌-◌, ◌/◌, ◌%◌, ◌^◌, Bool, true, false, not, ◌&&◌, Option, none, some,
  List, [], ◌∷◌, ◌++◌, leb, ltb, if◌then◌else◌,
}
use among_clusters.Prelude.Int.{ℤ, pos, negsuc}
use among_clusters.Text.{Text, codes, is_empty}
use among_clusters.Model.{BundleConfirmation}
use among_clusters.Protocol.{spiffe_id_of}

pub record LinkTarget : Type 0 where
  pub link_ref : Text
  pub peer_ref : Text
  pub endpoint : Text
  pub expected_spiffe_id : Text

pub record Agent : Type 0 where
  pub cluster_id : Text
  pub tenant : Text
  pub trust_domain : Text
  pub endpoint : Text
  pub namespace : Text
  pub secret_name : Text
  pub gateway_endpoint : Text
  pub broker_endpoint : Text
  pub key : Text
  pub sequence : ℕ
  pub confirmations : List BundleConfirmation
  pub links : List LinkTarget

-- spiffeID
unfoldable pub spiffe_id : Agent → Text
spiffe_id a = spiffe_id_of a.trust_domain a.cluster_id

unfoldable digits_of : ℕ → ℕ → Text
digits_of zero n = []
digits_of (suc fuel) n =
    let rest = digits_of fuel (n / 10) in
    if ltb n 10 then (b'0' + n) ∷ [] else rest ++ (b'0' + n % 10) ∷ []

-- strconv.FormatUint(n, 10): a uint64 has at most 20 digits.
unfoldable pub format_uint : ℕ → Text
unfolding digits_of
format_uint n = digits_of 20 n

-- strconv.FormatInt(n, 10)
unfoldable pub format_int : ℤ → Text
unfolding format_uint
format_int (pos n) = format_uint n
format_int (negsuc n) = codes "-" ++ format_uint (suc n)

-- The digits of a uint64 that are left, and what those before them make.
unfoldable parse_digits : ℕ → Text → ℕ
parse_digits n [] = n
parse_digits n (c ∷ s) =
    let next = n * 10 + (c - b'0') in
    let rest = parse_digits next s in
    if not (leb b'0' c && leb c b'9') then 0 else if leb (2 ^ 64) next then 2 ^ 64 - 1 else rest

-- The value that strconv.ParseUint(s, 10, 64) returns, with the error ignored.
unfoldable pub parse_uint : Text → ℕ
unfolding parse_digits
parse_uint s = parse_digits 0 s
