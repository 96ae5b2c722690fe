-- ===== src/Kubernetes/Generations.antt =====
-- internal/api/sovereign_store.go: KubernetesSovereignStore, the last generation of a cluster's messages, in
-- the status of its ClusterIdentity, where it is an int64. The nonce is written and never read.
pub mod Ascending
use among_clusters.Prelude.{
  ℕ, ◌-◌, ◌%◌, ◌^◌, ◌<◌, ◌≡◌, arith, Option, none, some, leb, if◌then◌else◌,
}
use among_clusters.Prelude.Int.{ℤ, pos, negsuc, wrap64}
use among_clusters.Text.{Text, codes}
use among_clusters.Time.{Time}
use among_clusters.Result.{Result, Error, ok, err, replayed_generation}
use among_clusters.Reconciler.{Rfc3339}
use among_clusters.Versioned.{Api, attempts}
use among_clusters.Kubernetes.Secrets.{map_result}

-- The status of a ClusterIdentity and its metadata.generation; a missing number is read as 0.
pub record IdentityStatus : Type 0 where
  pub generation : ℤ
  pub last_generation : ℤ
  pub last_nonce : Text
  pub state : Text
  pub last_seen_at : Text
  pub observed_generation : ℤ

-- uint64(a)
unfoldable pub uint64 : ℤ → ℕ
uint64 (pos n) = n % 2 ^ 64
uint64 (negsuc n) = 2 ^ 64 - 1 - n % 2 ^ 64

-- int64(g)
unfoldable pub int64 : ℕ → ℤ
unfolding wrap64
int64 g = wrap64 (pos g)

-- A generation that is stored is read back as it was, above the range of int64 too.
pub uint64-int64 : (g : ℕ) → g < 2 ^ 64 → uint64 (int64 g) ≡ g
unfolding uint64 int64
uint64-int64 g h = ground arith

-- RecordGeneration between the Get and the UpdateStatus; `now` is the time of the server.
unfoldable pub check_generation : Rfc3339 → Time → ℕ → Text → IdentityStatus → Result IdentityStatus
unfolding uint64 int64
check_generation layout now g nonce o =
    if leb g (uint64 o.last_generation)
    then err replayed_generation
    else ok (record o {
      last_generation = int64 g;
      last_nonce = nonce;
      state = codes "Ready";
      last_seen_at = layout.format now;
      observed_generation = o.generation;
    })

-- The errors of the API server are passed on as they are.
module _ {S : Type 0} (identities : Text → Text → Api S IdentityStatus)
    (missing failure : Error) where
  unfoldable pub last_generation : Text → Text → S → Result ℕ × S
  unfolding uint64
  last_generation tenant id s = elim ((identities tenant id).get s) [
    | none ↦ (err missing, s)
    | some v ↦ (ok (uint64 v.value.last_generation), s)
  ]

  unfoldable pub record_generation :
      Rfc3339 → Time → Text → Text → ℕ → Text → S → Result (Unit {0}) × S
  unfolding attempts check_generation map_result
  record_generation layout now tenant id g nonce s =
      let (r, t) =
        attempts (identities tenant id) (check_generation layout now g nonce) missing failure
          failure 1 s in
      (map_result (λ _. tt) r, t)
