-- ===== src/Store/History.antt =====
-- What every history of calls on the store in memory keeps: used invitations and claims stay used,
-- identities stay as they were registered, generations never fall, and nonces stay used.
pub mod Steps
pub mod Permanence
use among_clusters.Prelude.{
  ℕ, ◌≤◌, ◌<◌, ◌≡◌, ◌≢◌, refl, Bool, true, false, not, Option, none, some, List, [], ◌∷◌, arith,
  Option-cases, inl, inr, if◌then◌else◌, ◌∙◌,
}
use among_clusters.Text.{Text, ◌==◌}
use among_clusters.Text.Equality.{eq_iff}
use among_clusters.Time.{Time, is_zero}
use among_clusters.Dict
use among_clusters.Dict.{Dict, get-put}
use among_clusters.Model.{
  IdentityRegistration, Invitation, OnboardingClaim, BundleConfirmation, AdvertisedService,
  GrantFulfillment, LinkObservation,
}
use among_clusters.Store.{MemoryStore, generation_of, nonce_used, memory_store}

-- A call of a method of the store, with its arguments.
pub data Call : Type 0 where
  creates_claim : OnboardingClaim → Call
  consumes_claim : Text → Text → Text → Time → Call
  creates_invitation : Invitation → Call
  consumes_invitation : Text → Text → Text → Text → List Text → Time → Call
  registers : IdentityRegistration → Call
  reads_identity reads_generation : Text → Text → Call
  records : Text → Text → ℕ → Text → Call
  confirms : Text → Text → BundleConfirmation → Call
  observes : Text → Text → LinkObservation → Call
  syncs : Text → Text → List AdvertisedService → Time → Call
  polls : Text → Text → Time → Call
  fulfills : Text → Text → GrantFulfillment → Call

-- The store after a call.
unfoldable pub perform : Call → MemoryStore → MemoryStore
perform (creates_claim v) s = (memory_store.create_onboarding_claim v s).1
perform (consumes_claim t i h now) s = (memory_store.consume_onboarding_claim t i h now s).1
perform (creates_invitation v) s = (memory_store.create_invitation v s).1
perform (consumes_invitation i h t c r now) s = (memory_store.consume_invitation i h t c r now s).1
perform (registers v) s = (memory_store.register_identity v s).1
perform (reads_identity t i) s = (memory_store.identity t i s).1
perform (reads_generation t i) s = (memory_store.last_generation t i s).1
perform (records t i g n) s = (memory_store.record_generation t i g n s).1
perform (confirms t i v) s = (memory_store.confirm_peer_bundle t i v s).1
perform (observes t i v) s = (memory_store.observe_link t i v s).1
perform (syncs t i v now) s = (memory_store.sync_advertisements t i v now s).1
perform (polls t i now) s = (memory_store.pending_grants t i now s).1
perform (fulfills t i v) s = (memory_store.fulfill_grant t i v s).1

unfoldable pub run : MemoryStore → List Call → MemoryStore
run s [] = s
run s (c ∷ cs) = run (perform c s) cs

abbrev pub invitation_used? : Invitation → Bool
invitation_used? v = not (is_zero v.used_at)

abbrev pub claim_used? : OnboardingClaim → Bool
claim_used? v = not (is_zero v.used_at)

-- The entries with the property are in the second map as they are in the first.
abbrev pub Keeps {ℓ} : {V : Type ℓ} → (V → Bool) → Dict V → Dict V → Type ℓ
Keeps {V} p d d' = (k : Text) (v : V) → Dict.get d k ≡ some v → p v ≡ true → Dict.get d' k ≡ some v

-- The second store keeps what the first one has settled.
pub record Extends (s s' : MemoryStore) : Type 0 where
  pub invitations : Keeps invitation_used? s.invitations s'.invitations
  pub claims : Keeps claim_used? s.onboarding_claims s'.onboarding_claims
  pub identities : Keeps (λ _. true) s.identities s'.identities
  pub generations : (k : Text) → generation_of s.generations k ≤ generation_of s'.generations k
  pub nonces : (k n : Text) → nonce_used s.nonces k n ≡ true → nonce_used s'.nonces k n ≡ true

pub Keeps-put {ℓ} :
    {V : Type ℓ} (p : V → Bool) (d : Dict V) (k : Text) (u : V)
    → ((v : V) → Dict.get d k ≡ some v → p v ≡ false)
    → Keeps p d (Dict.put d k u)
Keeps-put p d k u open_entry j v found settled =
    ground (arith, get-put d k j u, eq_iff k j, open_entry v)

pub Extends-refl : (s : MemoryStore) → Extends s s
Extends-refl s = record {
  invitations = λ k v e p. e;
  claims = λ k v e p. e;
  identities = λ k v e p. e;
  generations = λ k. omega arith;
  nonces = λ k n e. e;
}

pub Extends-trans : {s t u : MemoryStore} → Extends s t → Extends t u → Extends s u
Extends-trans f g = record {
  invitations = λ k v e p. g.invitations k v (f.invitations k v e p) p;
  claims = λ k v e p. g.claims k v (f.claims k v e p) p;
  identities = λ k v e p. g.identities k v (f.identities k v e p) p;
  generations = λ k. omega (arith, f.generations k, g.generations k);
  nonces = λ k n e. g.nonces k n (f.nonces k n e);
}
