-- ===== src/Server/Replays.antt =====
-- The Hub's handlers over the store in memory, against replays: which messages are accepted, and that
-- none is accepted twice.
use among_clusters.Prelude.{ℕ, ◌≤◌, ◌≡◌, ◌≢◌, sym, ap, true, false, none, some, List, ◌⊎◌, subst}
use among_clusters.Text.{Text, codes, has_prefix}
use among_clusters.Time.{Time}
use among_clusters.Dict
use among_clusters.Model.{ControlMessage, IdentityRegistration}
use among_clusters.Crypto.{Crypto}
use among_clusters.Protocol.Verification.{IsCurrent, IsSigned, verify_iff}
use among_clusters.Result.{ok}
use among_clusters.Http.{Response, next}
use among_clusters.Store.{
  MemoryStore, memory_store, key, generation_of, nonce_used, record_generation,
}
use among_clusters.Store.Generations.{generation_of-record, nonce_used-record}
use among_clusters.Store.History.{Extends, Extends-trans}
use among_clusters.Store.History.Permanence.{replay_refused}
use among_clusters.Text.Equality.{eq_refl}
use among_clusters.Server.{Config}
use among_clusters.Server.Control.{control_message}
use among_clusters.Server.Control.Accepted.{control_message-Accepted}
use among_clusters.Server.Routes.{Request, serve, serve-Extends}

-- What is true of a message that the Hub accepts for a cluster.
pub record IsAuthentic (c : Crypto) (tenant id : Text) (m : ControlMessage) (now : Time)
    (s t : MemoryStore) : Type 0 where
  pub v : IdentityRegistration
  pub public_key : Text
  pub registered : Dict.get s.identities (key tenant id) ≡ some v
  pub key_decoded : c.base64_decode v.public_key ≡ some public_key
  pub from_issuer : m.issuer ≡ v.spiffe_id
  pub current : IsCurrent m (codes "hub") now (generation_of s.generations (key tenant id)) none
  pub signed : IsSigned c m public_key
  pub no_route : has_prefix m.type (codes "route.") ≡ false
  pub last : generation_of t.generations (key tenant id) ≡ m.generation
  pub used : nonce_used t.nonces (key tenant id) m.nonce ≡ true

recorded_facts :
    (u t : MemoryStore) (tenant id nonce : Text) (g : ℕ)
    → record_generation tenant id g nonce u ≡ (ok tt, t)
    → (generation_of t.generations (key tenant id) ≡ g)
      × (nonce_used t.nonces (key tenant id) nonce ≡ true)
recorded_facts u t tenant id nonce g h =
    let k = key tenant id in
    let done = ap (λ x. x.0) h in
    let after = ap (λ x. x.1) h in
    (
      subst (λ (x : MemoryStore). generation_of x.generations k ≡ g) after
          (rw (generation_of-record u tenant id nonce g k done) (rw (eq_refl k))),
      subst (λ (x : MemoryStore). nonce_used x.nonces k nonce ≡ true) after
          (nonce_used-record u tenant id nonce g done),
    )

module _ (c : Crypto) (tenant id : Text) (m : ControlMessage) (now later : Time) where
  -- Over the store in memory, a message that the Hub accepts for a cluster is authentic: the cluster is registered, the message
  -- names the cluster's SPIFFE ID as issuer, is addressed to the Hub, is current with a generation
  -- above the last one, is signed under the cluster's registered key, and is not about routes; and
  -- afterwards its generation is the last one and its nonce is used.
  pub control_message-IsAuthentic :
      (s t : MemoryStore) (r : Response)
      → control_message memory_store c tenant id (some m) now later s ≡ (next r, t)
      → IsAuthentic c tenant id m now s t
  control_message-IsAuthentic s t r h =
      let a = control_message-Accepted c tenant id (some m) now later s t r h in
      let same : a.m ≡ m = cc a.decoded in
      subst (λ x. IsAuthentic c tenant id x now s t) same
        (let (current, signed) =
            (verify_iff c a.m a.public_key (codes "hub") now
                (generation_of s.generations (key tenant id)) none).0
              a.checked in
          let facts =
            recorded_facts a.ended.before_record t tenant id a.m.nonce a.m.generation
              a.ended.recorded in
          record {
            v = a.v;
            public_key = a.public_key;
            registered = a.registered;
            key_decoded = a.key_decoded;
            from_issuer = a.from_issuer;
            current = current;
            signed = signed;
            no_route = a.no_route;
            last = facts.0;
            used = facts.1;
          })

module _ (config : Config) (c : Crypto) (tenant id : Text) (m m' : ControlMessage)
    (now later now' later' : Time) where
  -- Over the store in memory (MemorySovereignStore): after the Hub's handler has accepted a message for a
  -- cluster, and whatever requests have been served over this store since, it accepts for that cluster
  -- no message whose generation is not above that of the first, and none that has the same nonce; so
  -- it never accepts the same message twice.
  pub control_message_replay :
      (s t : MemoryStore) (r : Response) (rs : List Request) (r' : Response) (t' : MemoryStore)
      → control_message memory_store c tenant id (some m) now later s ≡ (next r, t)
      → (m'.generation ≤ m.generation) ⊎ (m'.nonce ≡ m.nonce)
      → control_message memory_store c tenant id
          (some m')
          now'
          later'
          (serve memory_store config c t rs)
        ≢ (next r', t')
  control_message_replay s t r rs r' t' h replay again =
      let a = control_message-Accepted c tenant id (some m) now later s t r h in
      let b = control_message-Accepted c tenant id (some m') now' later' _ t' r' again in
      let same : a.m ≡ m = cc a.decoded in
      let same' : b.m ≡ m' = cc b.decoded in
      let first =
        subst
          (λ (x : ControlMessage).
            record_generation tenant id x.generation x.nonce a.ended.before_record ≡ (ok tt, t))
          same a.ended.recorded in
      let second =
        subst
          (λ (x : ControlMessage).
            record_generation tenant id x.generation x.nonce b.ended.before_record ≡ (ok tt, t'))
          same' b.ended.recorded in
      replay_refused a.ended.before_record tenant id m.nonce m.generation b.ended.before_record
        m'.generation m'.nonce (ap (λ x. x.0) first) replay
        (subst (λ (x : MemoryStore). Extends x b.ended.before_record) (sym (ap (λ x. x.1) first))
          (Extends-trans (serve-Extends config c rs t) b.ended.effects))
        (ap (λ x. x.0) second)
