-- ===== src/Kubernetes/Secrets/Claims.antt =====
-- ConsumeOnboardingClaim by several requests at the same time: the claim goes to one of them at most.
use among_clusters.Prelude.{ℕ, ◌≤◌, ◌≡◌, refl, Bool, true, false, not, List, some, Option, arith}
use among_clusters.Prelude.Int.{◌<ℤ◌}
use among_clusters.Text.{Text, codes, is_empty}
use among_clusters.Text.Equality.{eq_iff}
use among_clusters.Time.{Time, before_iff}
use among_clusters.Result.{Result, Error, ok, invalid_claim, remote}
use among_clusters.Reconciler.{Rfc3339, parse_or_zero}
use among_clusters.Versioned.{Versioned, Api, IsOptimistic}
use among_clusters.Versioned.Interleaving.{finished, Event, System, run, start}
use among_clusters.Versioned.Rounds.{steps_of, process_ends}
use among_clusters.Versioned.Linear.SingleUse.{succeeded?, IsSingleUse, single_winner}
use among_clusters.Kubernetes.Secrets.{Secret, check_secret}

-- A request for the claim: the hash of the token that it presents, and when.
pub record Request : Type 0 where
  pub hash : Text
  pub now : Time

-- Does the secret bear the mark of use?
unfoldable pub is_used : Secret → Bool
is_used secret = not (is_empty secret.used_at)

module _ (layout : Rfc3339) (stamp : Time → Text) (requests : ℕ → Request) where
  -- What the request `i` checks.
  unfoldable pub check_of : ℕ → Secret → Result Secret
  check_of i = check_secret layout stamp (requests i).hash (requests i).now

  module _ {S : Type 0} (api : Api S Secret) (failure : Error) where
    -- The requests, each with the three attempts of ConsumeOnboardingClaim, after the given steps.
    unfoldable pub served : List Event → S → System S Secret
    served es s =
        run api check_of invalid_claim (remote (codes "claim update conflict")) failure es
          (start (λ i. 3) s)

    -- The request `i` has got the claim.
    unfoldable pub Gets : List Event → S → ℕ → Type 0
    unfolding served
    Gets es s i = succeeded? ((served es s).workers i) ≡ true

module _ (layout : Rfc3339) (stamp : Time → Text) (requests : ℕ → Request) where
  -- A request for a claim has its result after seven of its steps (three attempts, each a Get and an
  -- Update, and the end of the loop), however the API server answers, and whatever other requests and
  -- writers do in between.
  pub claim_request_ends :
      {S : Type 0} (api : Api S Secret) (failure : Error) (es : List Event) (s : S) (i : ℕ)
      → 7 ≤ steps_of i es
      → (r : Result Secret) × ((served layout stamp requests api failure es s).workers i
          ≡ finished r)
  unfolding served
  claim_request_ends api failure es s i enough =
      process_ends api (check_of layout stamp requests) invalid_claim
        (remote (codes "claim update conflict")) failure i 3 es (start (λ j. 3) s) refl
        (omega (arith, enough))

-- The secret is unused and in time, and the request presents its token.
pub record IsGranted (layout : Rfc3339) (request : Request) (secret : Secret) : Type 0 where
  pub knows_token : secret.token_hash ≡ request.hash
  pub unused : is_empty secret.used_at ≡ true
  pub in_time : request.now <ℤ parse_or_zero layout secret.expires_at

module _ (layout : Rfc3339) (stamp : Time → Text)
    (stamped : (t : Time) → is_empty (stamp t) ≡ false) (requests : ℕ → Request) where
  claims-IsSingleUse : IsSingleUse is_used (check_of layout stamp requests)
  unfolding IsSingleUse is_used check_of check_secret
  claims-IsSingleUse i v u h = ground (arith, h, stamped (requests i).now)

  granted :
      (i : ℕ) (v u : Secret)
      → check_of layout stamp requests i v ≡ ok u
      → IsGranted layout (requests i) v
  unfolding check_of check_secret
  granted i v u h = record {
    knows_token = ground (arith, h, eq_iff v.token_hash (requests i).hash);
    unused = ground (arith, h);
    in_time =
        (before_iff (requests i).now (parse_or_zero layout v.expires_at)).0 (ground (arith, h));
  }

  -- However the steps of concurrent requests for one claim interleave, with conflicts and with answers
  -- of the API server that are lost: a request that gets the claim presents the claim's token, before
  -- the claim expires, the claim was unused at the start, and a request that gets it too is the same.
  pub claim_single_winner :
      {S : Type 0} (api : Api S Secret) (held : S → Option (Versioned Secret))
      → IsOptimistic api held
      → (failure : Error) (es : List Event) (c : Versioned Secret) (s : S) (i j : ℕ)
      → held s ≡ some c
      → Gets layout stamp requests api failure es s i
      → Gets layout stamp requests api failure es s j
      → IsGranted layout (requests i) c.value × (j ≡ i)
  unfolding Gets served
  claim_single_winner api held sound failure es c s i j holds won other =
      let ((u, valid), only) =
        single_winner api held sound (check_of layout stamp requests) invalid_claim
          (remote (codes "claim update conflict")) failure is_used claims-IsSingleUse (λ i. 3) es c
          s i holds won in
      (granted i c.value u valid, only j other)
