-- ===== src/Examples/Hub.antt =====
-- The Hub's theorems at concrete requests.
use among_clusters.Prelude.{◌↔◌, ◌<◌, false, ◌≡◌, ◌≢◌, refl, some, [], ◌∷◌, arith, inl}
use among_clusters.Text.{codes}
use among_clusters.Http
use among_clusters.Http.{Response, next, write_json, ◌>>=◌, pure, present, call, require, when}
use among_clusters.Result.{ok}
use among_clusters.Store.{
  MemoryStore, memory_store, init, consume_invitation, record_generation, generation_of, nonce_used,
  key,
}
use among_clusters.Store.Invitations.{Redeems, consume_invitation_iff}
use among_clusters.Store.Generations.{record_generation_iff}
use among_clusters.Server.{accept_invitation, get_identity}
use among_clusters.Server.Control.{control_message}
use among_clusters.Server.Routes.{serve, serve-Extends}
use among_clusters.Server.Replays.{IsAuthentic, control_message_replay, control_message-IsAuthentic}
use among_clusters.Server.Enrollment.{
  Enrolled, accept_invitation-Enrolled, enrolment_single_use, enrolled_identity,
}
use among_clusters.Store.History.{Extends}
use among_clusters.Time.{zero_time}
use among_clusters.Dict
use among_clusters.Model.{Invitation}
use among_clusters.Examples.Fixtures.{
  toy, noon, later_that_day, alpha, heartbeat, config, inviting, accepting, acceptance, hub_code,
}

abbrev enrolled : MemoryStore
enrolled = serve memory_store config toy init (inviting ∷ accepting ∷ [])

abbrev accepted : Response
accepted = record { status = 202; generation = some 1; body = Http.empty }

abbrev after_beat : MemoryStore
after_beat =
    (control_message memory_store toy (codes "acme") (codes "alpha") (some heartbeat) noon noon
      enrolled).1

-- The Hub accepts the heartbeat of the cluster that was enrolled.
beat :
    control_message memory_store toy
      (codes "acme")
      (codes "alpha")
      (some heartbeat)
      noon
      noon
      enrolled
    ≡ (next accepted, after_beat)
unfolding hub_code
beat = refl

control_message_replay_example :
    control_message memory_store toy
      (codes "acme")
      (codes "alpha")
      (some heartbeat)
      noon
      noon
      (serve memory_store config toy after_beat (inviting ∷ []))
    ≢ (next accepted, after_beat)
control_message_replay_example =
    control_message_replay config toy (codes "acme") (codes "alpha") heartbeat heartbeat noon noon
      noon noon enrolled after_beat accepted (inviting ∷ []) accepted after_beat beat
      (inl (omega arith))

control_message-IsAuthentic_example :
    IsAuthentic toy (codes "acme") (codes "alpha") heartbeat noon enrolled after_beat
control_message-IsAuthentic_example =
    control_message-IsAuthentic toy (codes "acme") (codes "alpha") heartbeat noon noon enrolled
      after_beat accepted beat

abbrev invited : MemoryStore
invited = serve memory_store config toy init (inviting ∷ [])

abbrev joined : MemoryStore
joined = (accept_invitation memory_store toy (codes "i1") (some acceptance) noon invited).1

abbrev pending_alpha : Response
pending_alpha = write_json 201 (Http.pending (codes "alpha") (codes "acme"))

-- The Hub accepts the invitation of the cluster.
joining :
    accept_invitation memory_store toy (codes "i1") (some acceptance) noon invited
    ≡ (next pending_alpha, joined)
unfolding hub_code
joining = refl

noon_nonzero : noon ≢ zero_time
noon_nonzero = λ e. cc e

accept_invitation-Enrolled_example : Enrolled toy (codes "i1") acceptance noon invited joined
accept_invitation-Enrolled_example =
    accept_invitation-Enrolled toy (codes "i1") acceptance noon invited joined pending_alpha joining

enrolment_single_use_example :
    accept_invitation memory_store toy
      (codes "i1")
      (some acceptance)
      noon
      (serve memory_store config toy joined (inviting ∷ []))
    ≢ (next pending_alpha, joined)
enrolment_single_use_example =
    enrolment_single_use config toy (codes "i1") acceptance acceptance noon noon invited joined
      pending_alpha (inviting ∷ []) pending_alpha joined joining noon_nonzero

enrolled_identity_example :
    (v : Invitation) × (Dict.get invited.invitations (codes "i1") ≡ some v)
    × ((get_identity memory_store
          (codes "acme")
          (codes "alpha")
          (serve memory_store config toy joined (accepting ∷ []))).0
        ≡ next (write_json 200 (Http.registration (record alpha { region = v.region }))))
enrolled_identity_example =
    enrolled_identity config toy (codes "i1") acceptance noon invited joined pending_alpha
      (accepting ∷ []) joining

serve-Extends_example :
    Extends invited (serve memory_store config toy invited (accepting ∷ accepting ∷ []))
serve-Extends_example = serve-Extends config toy (accepting ∷ accepting ∷ []) invited

abbrev invitation_used : Invitation
invitation_used = record {
  id = codes "i1";
  tenant = codes "acme";
  cluster_id = [];
  region = [];
  token_hash = codes "hash";
  expires_at = later_that_day;
  used_at = noon;
  capabilities = codes "service" ∷ [];
}

consume_invitation_iff_example :
    ((consume_invitation
        (codes "i1")
        (codes "hash")
        (codes "acme")
        (codes "alpha")
        []
        noon
        invited).0
      ≡ ok invitation_used)
    ↔ ((v : Invitation) × (Dict.get invited.invitations (codes "i1") ≡ some v)
        × Redeems v (codes "hash") (codes "acme") (codes "alpha") [] noon
        × (invitation_used ≡ record v { used_at = noon }))
consume_invitation_iff_example =
    consume_invitation_iff (codes "i1") (codes "hash") (codes "acme") (codes "alpha") [] noon
      invited invitation_used

record_generation_iff_example :
    ((record_generation (codes "acme") (codes "alpha") 1 (codes "n") enrolled).0 ≡ ok tt) ↔ (
      (generation_of enrolled.generations (key (codes "acme") (codes "alpha")) < 1)
      × (nonce_used enrolled.nonces (key (codes "acme") (codes "alpha")) (codes "n") ≡ false))
record_generation_iff_example =
    record_generation_iff enrolled (codes "acme") (codes "alpha") (codes "n") 1
