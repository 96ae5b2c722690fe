-- ===== src/Agent/Heartbeat.antt =====
-- The agent's heartbeats at the Hub: the message of cmd/agent/main.go meets the handler controlMessage of
-- internal/api/sovereign_server.go over the store in memory.
use among_clusters.Prelude.{
  ℕ, ◌<◌, ◌≡◌, refl, sym, ap, subst, ◌∙◌, true, false, none, some, ◌++◌, arith,
}
use among_clusters.Prelude.Int.{pos, ◌≤ℤ◌, ◌<ℤ◌, ◌+ℤ◌}
use among_clusters.Text.{Text, codes, ◌==◌, has_prefix}
use among_clusters.Text.Equality.{eq_iff}
use among_clusters.Text.Splitting.{append_nonempty}
use among_clusters.Time.{Time, add, seconds, seconds_in_range}
use among_clusters.Dict
use among_clusters.Model.{ControlMessage, IdentityRegistration}
use among_clusters.Crypto.{Crypto, IsSound}
use among_clusters.Protocol.{sign, verify, seen, spiffe_id_of}
use among_clusters.Protocol.Verification.{IsCurrent, verify-sign, sign_result, two_minutes}
use among_clusters.Result.{ok}
use among_clusters.Http
use among_clusters.Http.{
  Response, Action, next, pure, present, call, answer, require, when, continue, respond, ◌>>=◌,
}
use among_clusters.Store.{
  MemoryStore, memory_store, key, identity, last_generation, generation_of, nonce_used,
  record_generation,
}
use among_clusters.Store.Generations.{record_generation_iff, generation_of-record}
use among_clusters.Server.Control.{verified, dispatch, control_message, processed}
use among_clusters.Agent.{Agent, spiffe_id, format_uint}
use among_clusters.Agent.Messages
use among_clusters.Agent.Messages.{
  World, Process, next_sequence, hub_message, registration, store_sequence, send_control_response,
}

abbrev pub heartbeat_type : Text
heartbeat_type = codes "identity.heartbeat"

unfoldable text_tests : Unit {0}
unfolding ◌==◌ has_prefix
text_tests = tt

-- The type of a heartbeat is none of those that have an effect.
no_effect_type :
    (t : Text)
    → t ≡ heartbeat_type
    → (t == codes "peer.bundle.confirm" ≡ false)
      × (t == codes "link.observe" ≡ false)
      × (t == codes "service.snapshot" ≡ false)
      × (t == codes "grant.poll" ≡ false)
      × (t == codes "grant.fulfilled" ≡ false)
      × (has_prefix t (codes "route.") ≡ false)
unfolding text_tests
no_effect_type t e = rw e (refl, refl, refl, refl, refl, refl)

dispatch_heartbeat :
    (c : Crypto) (tenant id : Text) (m : ControlMessage) (later : Time) (s : MemoryStore)
    → m.type ≡ heartbeat_type
    → dispatch memory_store c tenant id m later s ≡ (next none, s)
unfolding dispatch when pure ◌>>=◌ continue
dispatch_heartbeat c tenant id m later s e =
    let (confirms, observes, advertises, polls, fulfills, routes) = no_effect_type m.type e in
    ground (arith, confirms, observes, advertises, polls, fulfills)

module _ (c : Crypto) (tenant id : Text) (m : ControlMessage) (now later : Time) (s : MemoryStore)
    (v : IdentityRegistration) (public : Text) where
  -- The handler on a heartbeat that verifies.
  control_message_heartbeat :
      Dict.get s.identities (key tenant id) ≡ some v
      → c.base64_decode v.public_key ≡ some public
      → verify c m public (codes "hub") now (generation_of s.generations (key tenant id)) none
        ≡ none
      → m.issuer ≡ v.spiffe_id
      → m.type ≡ heartbeat_type
      → (record_generation tenant id m.generation m.nonce s).0 ≡ ok tt
      → control_message memory_store c tenant id (some m) now later s ≡ (
        next (processed m.generation none),
        (record_generation tenant id m.generation m.nonce s).1,
      )
  unfolding control_message call answer present require verified pure ◌>>=◌ continue identity
      last_generation
  control_message_heartbeat found decoded checks issuer type recorded =
      let (_, _, _, _, _, routes) = no_effect_type m.type type in
      let effects = dispatch_heartbeat c tenant id m later s type in
      ground (
        arith,
        found,
        decoded,
        checks,
        routes,
        effects,
        recorded,
        (eq_iff m.issuer v.spiffe_id).1 issuer,
      )

later_minute : (now : Time) → now <ℤ add now (seconds (pos 60))
unfolding add ◌+ℤ◌
later_minute now = let minute = seconds_in_range 60 (omega arith) in ground (arith, minute)

module _ (c : Crypto) (sound : IsSound c) (a : Agent) (payload : Text) (now hub later : Time) where
  -- What the agent signs.
  abbrev envelope : ControlMessage
  envelope = hub_message a heartbeat_type payload now

  -- The clock of the Hub is at most two minutes behind the agent's, and less than a minute ahead.
  abbrev AreClose : Type 0
  AreClose = (now ≤ℤ hub +ℤ pos two_minutes) × (hub <ℤ add now (seconds (pos 60)))

  envelope-IsCurrent :
      (last : ℕ) → AreClose → last < a.sequence → IsCurrent envelope (codes "hub") hub last none
  unfolding hub_message spiffe_id spiffe_id_of seen
  envelope-IsCurrent last (started, live) newer = record {
    addressed = refl;
    has_issuer = λ e. absurd cc;
    has_nonce = append_nonempty a.cluster_id (codes "-" ++ format_uint a.sequence) (λ e. absurd cc);
    has_type = λ e. absurd cc;
    newer = newer;
    window = record { ordered = later_minute now; started = started; live = live };
    fresh = refl;
  }

  -- The Hub's answer to the signed message, of an agent that has its sequence number already.
  answered :
      (m : ControlMessage) (s : MemoryStore) (digest region : Text)
      → sign c envelope a.key ≡ some m
      → Dict.get s.identities (key a.tenant a.cluster_id)
        ≡ some (record (registration c a digest) { region = region })
      → generation_of s.generations (key a.tenant a.cluster_id) < a.sequence
      → nonce_used s.nonces (key a.tenant a.cluster_id) envelope.nonce ≡ false
      → AreClose
      → (m.generation ≡ a.sequence)
        × ((record_generation a.tenant a.cluster_id m.generation m.nonce s).0 ≡ ok tt)
        × (control_message memory_store c a.tenant a.cluster_id (some m) hub later s ≡ (
          next (processed m.generation none),
          (record_generation a.tenant a.cluster_id m.generation m.nonce s).1,
        ))
  unfolding registration hub_message
  answered m s digest region signed registered newer unused close =
      let (body, encoded, result) = sign_result c envelope m a.key signed in
      let last = generation_of s.generations (key a.tenant a.cluster_id) in
      let checks =
        verify-sign c envelope m a.key (codes "hub") hub last none sound signed
          (envelope-IsCurrent last close newer) in
      let number = ap (λ (x : ControlMessage). x.generation) result in
      let nonce = ap (λ (x : ControlMessage). x.nonce) result in
      let recorded = (record_generation_iff s a.tenant a.cluster_id m.nonce m.generation).1 (
        subst (λ g. last < g) (sym number) newer,
        subst (λ n. nonce_used s.nonces (key a.tenant a.cluster_id) n ≡ false) (sym nonce) unused,
      ) in
      (
        number,
        recorded,
        control_message_heartbeat c a.tenant a.cluster_id m hub later s
            (record (registration c a digest) { region = region }) (c.public a.key) registered
            (sound.decode-encode (c.public a.key)) checks
            (ap (λ (x : ControlMessage). x.issuer) result)
            (ap (λ (x : ControlMessage). x.type) result) recorded,
      )

status-processed : (g : ℕ) → (processed g none).status ≡ 202
unfolding processed
status-processed g = refl

-- The response that the agent receives is the Hub's.
pub record IsDelivered (w : World) (m : ControlMessage)
    (answer : Http.Outcome Response × MemoryStore) (body : Text) : Type 0 where
  pub response : Messages.Response
  pub delivered : w.deliver m ≡ some response
  pub same_code : response.code ≡ (respond answer).0.status
  pub readable : response.body ≡ some body

-- The process with the next sequence number.
abbrev pub advanced : Process → Agent
advanced p = record p.agent { sequence = next_sequence p.agent.sequence }

module _ (c : Crypto) (sound : IsSound c) (w : World) (p : Process) (payload body : Text)
    (m : ControlMessage) (hub later : Time) (s : MemoryStore) where
  abbrev pub handled : Http.Outcome Response × MemoryStore
  handled = control_message memory_store c p.agent.tenant p.agent.cluster_id (some m) hub later s

  -- A send whose response has the status 202 keeps the sequence number.
  sent :
      (r : Messages.Response)
      → sign c (hub_message (advanced p) heartbeat_type payload w.now) p.agent.key ≡ some m
      → w.deliver m ≡ some r
      → r.code ≡ 202
      → r.body ≡ some body
      → w.reads_secret ≡ true
      → w.writes_secret ≡ true
      → send_control_response c w heartbeat_type payload p ≡ (
        ok body,
        record {
          agent = advanced p;
          stored_generation = format_uint (next_sequence p.agent.sequence);
        },
      )
  unfolding send_control_response store_sequence
  sent r signed delivered code content reads writes =
      ground (arith, signed, delivered, code, content, reads, writes)

  -- A heartbeat of an agent that the Hub has registered is recorded: if the agent's next sequence number is
  -- above the Hub's last generation, the nonce is new, the JSON encoder does not fail, the clocks are
  -- close and the response arrives, then the Hub's last generation becomes that number, and the
  -- agent, whose Secret can be read and written, stores it.
  pub send_control_response_recorded :
      (digest region : Text)
      → sign c (hub_message (advanced p) heartbeat_type payload w.now) p.agent.key ≡ some m
      → Dict.get s.identities (key p.agent.tenant p.agent.cluster_id)
        ≡ some (record (registration c p.agent digest) { region = region })
      → generation_of s.generations (key p.agent.tenant p.agent.cluster_id)
        < next_sequence p.agent.sequence
      → nonce_used s.nonces
          (key p.agent.tenant p.agent.cluster_id)
          (hub_message (advanced p) heartbeat_type payload w.now).nonce
        ≡ false
      → w.now ≤ℤ hub +ℤ pos two_minutes
      → hub <ℤ add w.now (seconds (pos 60))
      → IsDelivered w m handled body
      → w.reads_secret ≡ true
      → w.writes_secret ≡ true
      → (t : MemoryStore) × (handled ≡ (next (processed (next_sequence p.agent.sequence) none), t))
        × (generation_of t.generations (key p.agent.tenant p.agent.cluster_id)
            ≡ next_sequence p.agent.sequence)
        × (send_control_response c w heartbeat_type payload p ≡ (
          ok body,
          record {
            agent = advanced p;
            stored_generation = format_uint (next_sequence p.agent.sequence);
          },
        ))
  unfolding registration respond spiffe_id
  send_control_response_recorded digest region signed registered newer unused started live arrives
        reads writes =
      let (number, recorded, handles) =
        answered c sound (advanced p) payload w.now hub later m s digest region signed registered
          newer unused (started, live) in
      let k = key p.agent.tenant p.agent.cluster_id in
      let t = (record_generation p.agent.tenant p.agent.cluster_id m.generation m.nonce s).1 in
      let last =
        generation_of-record s p.agent.tenant p.agent.cluster_id m.nonce m.generation k recorded in
      let code =
        arrives.same_code
        ∙ (ap (λ (o : Http.Outcome Response × MemoryStore). (respond o).0.status) handles
            ∙ status-processed m.generation) in
      (
        t,
        subst (λ g. handled ≡ (next (processed g none), t)) number handles,
        ground (arith, last, number, (eq_iff k k).1 refl),
        sent arrives.response signed arrives.delivered code arrives.readable reads writes,
      )
