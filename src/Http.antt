-- ===== src/Http.antt =====
-- HTTP handlers: an action on the state `S` answers with an error and stops (`done`), or goes on.
pub mod Rules
pub mod Clean
use among_clusters.Prelude.{
  ℕ, ◌≡◌, refl, Bool, true, false, Option, none, some, if◌then◌else◌, ap, List,
}
use among_clusters.Text.{Text, codes}
use among_clusters.Time.{Time}
use among_clusters.Model.{GrantSnapshot, IdentityRegistration}
use among_clusters.Result.{Result, Error, ok, err}

pub data Body : Type 0 where
  empty : Body
  -- http.Error(w, text, status)
  error_text : Text → Body
  -- {"invitationID", "token", "expiresAt"}
  invitation : Text → Text → Time → Body
  -- {"clusterID", "region", "claimURL", "expiresAt"}
  claim_link : Text → Text → Text → Time → Body
  -- {"clusterID", "tenant", "state": "PendingConfirmation"}
  pending : Text → Text → Body
  -- the installation document of a claim's cluster ID and region, with an invitation's ID and token
  document : Text → Text → Text → Text → Body
  grants : GrantSnapshot → Body
  registration : IdentityRegistration → Body
  pem : Text → Body
  -- {"credentialRef"}
  credential_ref : Text → Body

-- `generation` is the header X-AmongClusters-Generation.
pub record Response : Type 0 where
  pub status : ℕ
  pub generation : Option ℕ
  pub body : Body

-- http.Error(w, text, status)
abbrev pub http_error : ℕ → Text → Response
http_error status text = record { status = status; generation = none; body = error_text text }

-- writeJSON(w, status, v)
abbrev pub write_json : ℕ → Body → Response
write_json status body = record { status = status; generation = none; body = body }

pub data Outcome (A : Type 0) : Type 0 where
  done : Response → Outcome A
  next : A → Outcome A

abbrev pub Action : Type 0 → Type 0 → Type 0
Action S A = S → Outcome A × S

module _ {S A : Type 0} where
  unfoldable pub pure : A → Action S A
  pure a s = (next a, s)

  -- if v == nil { http.Error(...); return }
  unfoldable pub present : Option A → Response → Action S A
  present none r s = (done r, s)
  present (some a) r s = (next a, s)

  unfoldable pub answer : Result A × S → (Error → Response) → Outcome A × S
  answer (ok a, s) f = (next a, s)
  answer (err e, s) f = (done (f e), s)

  -- A method of the store, and the response to its error.
  unfoldable pub call : (S → Result A × S) → (Error → Response) → Action S A
  unfolding answer
  call m f s = answer (m s) f

-- if !b { http.Error(...); return }
unfoldable pub require : {S : Type 0} → Bool → Response → Action S (Unit {0})
require b r s = if b then (next tt, s) else (done r, s)

-- if b { ... }
unfoldable pub when : {S : Type 0} → Bool → Action S (Unit {0}) → Action S (Unit {0})
when b m s = if b then m s else (next tt, s)

module _ {S A B : Type 0} where
  unfoldable pub continue : Outcome A × S → (A → Action S B) → Outcome B × S
  continue (next a, s) f = f a s
  continue (done r, s) f = (done r, s)

  infixl 5 ◌>>=◌ ◌>>◌
  unfoldable pub ◌>>=◌ : Action S A → (A → Action S B) → Action S B
  unfolding continue
  ◌>>=◌ m f s = continue (m s) f

  abbrev pub ◌>>◌ : Action S A → Action S B → Action S B
  m >> n = m >>= λ _. n

-- What the client receives.
unfoldable pub respond : {S : Type 0} → Outcome Response × S → Response × S
respond (done r, s) = (r, s)
respond (next r, s) = (r, s)
