-- ===== src/Examples/Beating.antt =====
-- A heartbeat of an agent at a Hub that has registered it.
use among_clusters.Prelude.{◌≡◌, ◌<◌, refl, true, false, some, none, [], arith}
use among_clusters.Prelude.Int.{pos, ◌≤ℤ◌, ◌<ℤ◌, ◌+ℤ◌}
use among_clusters.Text.{Text, codes}
use among_clusters.Time.{add, seconds}
use among_clusters.Dict
use among_clusters.Model.{ControlMessage}
use among_clusters.Protocol.Verification.{two_minutes}
use among_clusters.Protocol.{sign}
use among_clusters.Result.{ok, invalid_claim}
use among_clusters.Http.{next}
use among_clusters.Store.{MemoryStore, init, key, generation_of, nonce_used}
use among_clusters.Server.Control.{processed}
use among_clusters.Agent
use among_clusters.Agent.{Agent, format_uint}
use among_clusters.Agent.Messages
use among_clusters.Agent.Messages.{
  World, Process, next_sequence, hub_message, registration, send_control_response,
}
use among_clusters.Agent.Heartbeat.{
  IsDelivered, advanced, handled, heartbeat_type, send_control_response_recorded,
}
use among_clusters.Examples.Fixtures.{toy, toy-IsSound, noon, key_text, hub_code}

abbrev pub agent : Agent
agent = record {
  cluster_id = codes "alpha";
  tenant = codes "acme";
  trust_domain = codes "alpha.byoc";
  endpoint = codes "https://hub.example";
  namespace = codes "among-clusters";
  secret_name = codes "identity";
  gateway_endpoint = codes "quic://alpha.example:8443";
  broker_endpoint = [];
  key = key_text;
  sequence = 4;
  confirmations = [];
  links = [];
}

abbrev process : Process
process = record { agent = agent; stored_generation = codes "4" }

abbrev world : World
world = record {
  deliver =
      λ m. some (record { status = codes "202 Accepted"; code = 202; body = some (codes "{}") });
  reads_secret = true;
  writes_secret = true;
  now = noon;
  failure = invalid_claim;
}

abbrev digest : Text
digest = codes "sha256:00"

abbrev hub : MemoryStore
hub = record init {
  identities =
      Dict.put Dict.empty (key (codes "acme") (codes "alpha"))
        (record (registration toy agent digest) { region = codes "eu" });
}

abbrev signed : ControlMessage
signed = record (hub_message (advanced process) heartbeat_type [] noon) {
  signature = (hub_message (advanced process) heartbeat_type [] noon).nonce;
}

unfoldable beat_code : Unit {0}
unfolding hub_code Agent.spiffe_id Agent.format_uint Messages.next_sequence Messages.hub_message
    Messages.registration
beat_code = tt

signs : sign toy (hub_message (advanced process) heartbeat_type [] noon) key_text ≡ some signed
unfolding beat_code
signs = refl

registered :
    Dict.get hub.identities (key (codes "acme") (codes "alpha"))
    ≡ some (record (registration toy agent digest) { region = codes "eu" })
unfolding beat_code
registered = refl

newer : generation_of hub.generations (key (codes "acme") (codes "alpha")) < next_sequence 4
unfolding beat_code
newer = omega arith

unused :
    nonce_used hub.nonces
      (key (codes "acme") (codes "alpha"))
      (hub_message (advanced process) heartbeat_type [] noon).nonce
    ≡ false
unfolding beat_code
unused = refl

started : noon ≤ℤ noon +ℤ pos two_minutes
unfolding beat_code
started = omega arith

live : noon <ℤ add noon (seconds (pos 60))
unfolding beat_code
live = omega arith

arrives :
    IsDelivered world signed
      (handled toy toy-IsSound world process [] (codes "{}") signed noon noon hub)
      (codes "{}")
unfolding beat_code
arrives = record {
  response = record { status = codes "202 Accepted"; code = 202; body = some (codes "{}") };
  delivered = refl;
  same_code = refl;
  readable = refl;
}

send_control_response_recorded_example :
    (t : MemoryStore) × (handled toy toy-IsSound world process [] (codes "{}") signed noon noon hub
      ≡ (next (processed (next_sequence 4) none), t))
    × (generation_of t.generations (key (codes "acme") (codes "alpha")) ≡ next_sequence 4)
    × (send_control_response toy world heartbeat_type [] process ≡ (
      ok (codes "{}"),
      record { agent = advanced process; stored_generation = format_uint (next_sequence 4) },
    ))
send_control_response_recorded_example =
    send_control_response_recorded toy toy-IsSound world process [] (codes "{}") signed noon noon
      hub digest (codes "eu") signs registered newer unused started live arrives refl refl
