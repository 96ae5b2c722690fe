-- ===== src/Server/Settled.antt =====
-- Every handler of the Hub, over the store in memory, keeps what the store has settled.
use among_clusters.Prelude.{Bool, true, false, Option, none, some, if◌then◌else◌, List}
use among_clusters.Text.{Text}
use among_clusters.Time.{Time}
use among_clusters.Model.{ControlMessage, InvitationAcceptance, AdvertisedService, GrantFulfillment}
use among_clusters.Crypto.{Crypto}
use among_clusters.Protocol.{VerifyError}
use among_clusters.Result.{Result, Error, ok, err}
use among_clusters.Http.{
  Response, Outcome, Action, done, next, pure, present, call, answer, require, when, continue,
  ◌>>=◌,
}
use among_clusters.Store.{
  MemoryStore, memory_store, sync_advertisements, last_generation, pending_grants, fulfill_grant,
}
use among_clusters.Store.History.{Extends, Extends-refl, Extends-trans}
use among_clusters.Store.History.Steps.{
  create_invitation-Extends, consume_invitation-Extends, create_claim-Extends,
  consume_claim-Extends, register_identity-Extends, record_generation-Extends, observe_link-Extends,
  confirm_peer_bundle-Extends, identity-Extends, unrelated,
}
use among_clusters.Server.{
  Config, InvitationRequest, LinkRequest, create_invitation, accept_invitation, get_identity,
}
use among_clusters.Server.Control.{
  verified, confirm, observe, advertise, poll, fulfill, dispatch, control_message,
}
use among_clusters.Server.Onboarding.{create_onboarding_link, consume_onboarding, provider_bundle}

pub record Settles {A : Type 0} (m : Action MemoryStore A) : Type 0 where
  pub at : (s : MemoryStore) → Extends s (m s).1

module _ {A : Type 0} where
  Settles-pure : (a : A) → Settles (pure a)
  unfolding pure
  Settles-pure a = record { at = λ s. Extends-refl s }

  Settles-present : (o : Option A) (r : Response) → Settles (present o r)
  unfolding present
  Settles-present none r = record { at = λ s. Extends-refl s }
  Settles-present (some a) r = record { at = λ s. Extends-refl s }

  answer-Extends :
      (s : MemoryStore) (o : Result A × MemoryStore) (f : Error → Response)
      → Extends s o.1
      → Extends s (answer o f).1
  unfolding answer
  answer-Extends s (ok a, t) f h = h
  answer-Extends s (err e, t) f h = h

  Settles-call :
      (m : MemoryStore → Result A × MemoryStore) (f : Error → Response)
      → ((s : MemoryStore) → Extends s (m s).1)
      → Settles (call m f)
  unfolding call
  Settles-call m f h = record { at = λ s. answer-Extends s (m s) f (h s) }

  Settles-if :
      (b : Bool) (m n : Action MemoryStore A) → Settles m → Settles n → Settles (if b then m else n)
  Settles-if true m n km kn = km
  Settles-if false m n km kn = kn

Settles-require : (b : Bool) (r : Response) → Settles (require b r)
unfolding require
Settles-require true r = record { at = λ s. Extends-refl s }
Settles-require false r = record { at = λ s. Extends-refl s }

Settles-when : (b : Bool) (m : Action MemoryStore (Unit {0})) → Settles m → Settles (when b m)
unfolding when
Settles-when true m k = k
Settles-when false m k = record { at = λ s. Extends-refl s }

Settles-verified : (o : Option VerifyError) → Settles (verified o)
unfolding verified
Settles-verified none = record { at = λ s. Extends-refl s }
Settles-verified (some e) = record { at = λ s. Extends-refl s }

module _ {A B : Type 0} where
  continue-Extends :
      (s : MemoryStore) (o : Outcome A × MemoryStore) (f : A → Action MemoryStore B)
      → Extends s o.1
      → ((a : A) → Settles (f a))
      → Extends s (continue o f).1
  unfolding continue
  continue-Extends s (next a, t) f h k = Extends-trans h ((k a).at t)
  continue-Extends s (done r, t) f h k = h

  Settles-bind :
      (m : Action MemoryStore A) (f : A → Action MemoryStore B)
      → Settles m
      → ((a : A) → Settles (f a))
      → Settles (m >>= f)
  unfolding ◌>>=◌
  Settles-bind m f km kf = record { at = λ s. continue-Extends s (m s) f (km.at s) kf }

sync-Extends :
    (s : MemoryStore) (t i : Text) (v : List AdvertisedService) (now : Time)
    → Extends s (sync_advertisements t i v now s).1
unfolding sync_advertisements
sync-Extends s t i v now = unrelated s s.links _

last_generation-Extends : (s : MemoryStore) (t i : Text) → Extends s (last_generation t i s).1
unfolding last_generation
last_generation-Extends s t i = Extends-refl s

pending_grants-Extends :
    (s : MemoryStore) (t i : Text) (now : Time) → Extends s (pending_grants t i now s).1
unfolding pending_grants
pending_grants-Extends s t i now = Extends-refl s

fulfill_grant-Extends :
    (s : MemoryStore) (t i : Text) (v : GrantFulfillment) → Extends s (fulfill_grant t i v s).1
unfolding fulfill_grant
fulfill_grant-Extends s t i v = Extends-refl s

ruleset settled_rules = (
  Settles-pure, Settles-present, Settles-call, Settles-if, Settles-require, Settles-when,
  Settles-verified, Settles-bind, create_invitation-Extends, consume_invitation-Extends,
  create_claim-Extends, consume_claim-Extends, register_identity-Extends, record_generation-Extends,
  observe_link-Extends, confirm_peer_bundle-Extends, identity-Extends, sync-Extends,
  last_generation-Extends, pending_grants-Extends, fulfill_grant-Extends,
)

module _ (config : Config) (c : Crypto) where
  pub create_invitation-Settles :
      (header : Text) (body : Option InvitationRequest) (id token : Option Text) (now : Time)
      → Settles (create_invitation memory_store config c header body id token now)
  unfolding create_invitation
  create_invitation-Settles header body id token now = search settled_rules depth 40

  pub accept_invitation-Settles :
      (id : Text) (body : Option InvitationAcceptance) (now : Time)
      → Settles (accept_invitation memory_store c id body now)
  unfolding accept_invitation
  accept_invitation-Settles id body now = search settled_rules depth 40

  pub get_identity-Settles : (tenant id : Text) → Settles (get_identity memory_store tenant id)
  unfolding get_identity
  get_identity-Settles tenant id = search settled_rules depth 40

  pub create_onboarding_link-Settles :
      (header : Text) (body : Option LinkRequest) (id token : Option Text) (now : Time)
      → Settles (create_onboarding_link memory_store config c header body id token now)
  unfolding create_onboarding_link
  create_onboarding_link-Settles header body id token now = search settled_rules depth 40

  pub consume_onboarding-Settles :
      (id token : Text) (invitation_id invitation_token : Option Text) (now later : Time)
      → Settles (
          consume_onboarding memory_store config c id token invitation_id invitation_token now
            later)
  unfolding consume_onboarding
  consume_onboarding-Settles id token iid itoken now later = search settled_rules depth 40

  pub provider_bundle-Settles : Settles (provider_bundle memory_store config c)
  unfolding provider_bundle
  provider_bundle-Settles = search settled_rules depth 40

module _ (c : Crypto) (tenant id : Text) where
  pub dispatch-Settles :
      (m : ControlMessage) (now : Time) → Settles (dispatch memory_store c tenant id m now)
  unfolding dispatch confirm observe advertise poll fulfill
  dispatch-Settles m now = search settled_rules depth 40

  pub control_message-Settles :
      (body : Option ControlMessage) (now later : Time)
      → Settles (control_message memory_store c tenant id body now later)
  unfolding control_message
  control_message-Settles body now later = search (settled_rules, dispatch-Settles) depth 40
