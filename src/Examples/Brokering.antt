-- ===== src/Examples/Brokering.antt =====
-- The broker's theorems at a concrete world and message.
use among_clusters.Prelude.{◌≡◌, ◌≢◌, refl, true, false, some, none, [], ◌++◌, arith}
use among_clusters.Text
use among_clusters.Text.{Text, codes, has_prefix}
use among_clusters.Text.Splitting.{Lacks}
use among_clusters.Dict
use among_clusters.Model.{ControlMessage, CredentialPayload}
use among_clusters.Credential.{Envelope, opened}
use among_clusters.Http
use among_clusters.Http.{Response, next, write_json}
use among_clusters.Broker
use among_clusters.Broker.{Broker, World, StoreMeta, store, reference, secret_name}
use among_clusters.Broker.Proxy
use among_clusters.Broker.Proxy.{Forwarded, proxy}
use among_clusters.Broker.Permission.{MayUse, IsForwarded}
use among_clusters.Broker.Using.{use_of, proxy_stored}
use among_clusters.Broker.Stored.{IsStored, store-IsStored}
use among_clusters.Broker.Generations.{serve, store_replay}
use among_clusters.Broker.Proxying.{proxy-IsForwarded}
use among_clusters.Broker.Names.{proxy_stored_other}
use among_clusters.Examples.Fixtures.{toy, noon, later_that_day, alpha, heartbeat, hub_code}

abbrev sealed : Envelope
sealed = record { ephemeral_key = codes "key"; nonce = codes "nonce"; ciphertext = codes "text" }

abbrev meta : StoreMeta
meta = record {
  tenant = codes "acme";
  cluster_id = codes "alpha";
  grant_ref = codes "g1";
  envelope = sealed;
}

abbrev payload : CredentialPayload
payload = record {
  token = codes "token";
  certificate_authority = [];
  server = codes "https://alpha";
  tls_server_name = [];
  expires_at = later_that_day;
}

-- The Hub knows alpha alone, and every envelope is the same.
abbrev world : World
world = record {
  crypto = toy;
  identity = λ tenant id. some alpha;
  unmarshal_store = λ p. some meta;
  unmarshal_revoke = λ p. none;
  marshal_envelope = λ e. codes "{}";
  unmarshal_envelope = λ t. some sealed;
  decrypt = λ e. opened payload;
  format = λ t. codes "noon";
  token_review = λ t. none;
  access_review = λ a. none;
  is_url = λ t. true;
  reads = λ n. true;
  writes = λ n. true;
  deletes = λ n. true;
}

abbrev message : ControlMessage
message = record heartbeat { audience = codes "credential-broker"; type = codes "credential.store" }

abbrev fresh : Broker
fresh = record { generations = Dict.empty; secrets = Dict.empty }

abbrev filled : Broker
filled = (store world (some message) noon noon fresh).1

abbrev created : Response
created = write_json 201 (Http.credential_ref (reference (codes "acme") (codes "g1")))

unfoldable broker_code : Unit {0}
unfolding hub_code Text.dashes Text.to_lower Text.trim_dash Text.trim_prefix Text.split Text.split_n
    Broker.resource_name Broker.secret_name Broker.reference Broker.decrypted Broker.passes
    Broker.last_generation Broker.read_generation Broker.set_generation Broker.can_write
    Broker.write_secret Broker.get_secret Broker.is_authorized Broker.store Proxy.add_path
    Proxy.origin_parts Proxy.kubernetes_proxy_parts Proxy.forwarded_path Proxy.may_use
    Proxy.proxy_grant Proxy.proxy_parts Proxy.proxy
broker_code = tt

stores : store world (some message) noon noon fresh ≡ (next created, filled)
unfolding broker_code
stores = refl

store_replay_example :
    store world (some message) noon noon (serve filled []) ≢ (next created, filled)
store_replay_example =
    store_replay world world message message noon noon noon noon fresh filled filled created created
      [] stores refl (omega arith)

store-IsStored_example :
    (m : ControlMessage) × (some message ≡ some m) × IsStored world m noon noon fresh filled created
store-IsStored_example = store-IsStored world (some message) noon noon fresh filled created stores

abbrev header : Text
header = codes "Bearer " ++ reference (codes "acme") (codes "g1")

abbrev passed_on : Forwarded
passed_on = record {
  target = codes "https://alpha";
  certificate_authority = [];
  tls_server_name = [];
  path = codes "/api";
  authorization = codes "Bearer token";
}

proxies : proxy world (codes "/api") header noon filled ≡ (next passed_on, filled)
unfolding broker_code
proxies = refl

proxy-IsForwarded_example :
    (tenant grant : Text) × MayUse world (codes "/api") header tenant grant (codes "/api")
    × IsForwarded world tenant grant noon filled filled passed_on
proxy-IsForwarded_example =
    proxy-IsForwarded world (codes "/api") header noon filled filled passed_on proxies

abbrev no_slashes : Lacks b'/' (codes "acme") × Lacks b'/' (codes "g1")
no_slashes = ((refl, (refl, (refl, (refl, tt)))), (refl, (refl, tt)))

at_origin : has_prefix (codes "/api") (codes "/k8s/") ≡ false
unfolding broker_code
at_origin = refl

proxy_stored_example :
    (created ≡ write_json 201 (Http.credential_ref (reference (codes "acme") (codes "g1"))))
    × (proxy world
          (codes "/api")
          (codes "Bearer " ++ reference (codes "acme") (codes "g1"))
          noon
          filled
        ≡ (next (use_of payload (codes "/api")), filled))
proxy_stored_example =
    proxy_stored world message noon noon noon fresh filled created meta payload (codes "/api")
      stores refl refl refl refl refl (omega arith) no_slashes.0 no_slashes.1 at_origin

-- The same credential, stored for the grant b-c of the tenant a.
abbrev shared_world : World
shared_world = record world {
  unmarshal_store = λ p. some (record meta { tenant = codes "a"; grant_ref = codes "b-c" });
}

abbrev shared : Broker
shared = (store shared_world (some message) noon noon fresh).1

abbrev shared_created : Response
shared_created = write_json 201 (Http.credential_ref (reference (codes "a") (codes "b-c")))

stores_shared : store shared_world (some message) noon noon fresh ≡ (next shared_created, shared)
unfolding broker_code
stores_shared = refl

proxy_stored_other_example :
    proxy shared_world
      (codes "/api")
      (codes "Bearer " ++ reference (codes "a-b") (codes "c"))
      noon
      shared
    ≡ (next (use_of payload (codes "/api")), shared)
proxy_stored_other_example =
    proxy_stored_other shared_world message noon noon noon fresh shared shared_created
      (record meta { tenant = codes "a"; grant_ref = codes "b-c" }) payload (codes "/api")
      (codes "a") (codes "b") (codes "c") stores_shared refl refl refl refl refl refl refl
      (omega arith) (refl, (refl, (refl, tt))) (λ e. absurd cc) (refl, tt) at_origin
