-- ===== src/Kubernetes/Generations/Ascending.antt =====
-- RecordGeneration by several replicas of the Hub, or several requests, at the same time.
use among_clusters.Prelude.{ℕ, ◌^◌, ◌<◌, ◌≤◌, ◌≡◌, subst, some, Option, arith, List, [], ◌∷◌, map}
use among_clusters.Text.{Text}
use among_clusters.Time.{Time}
use among_clusters.Result.{Result, Error, ok}
use among_clusters.Reconciler.{Rfc3339}
use among_clusters.Versioned.{Versioned, Api, IsOptimistic}
use among_clusters.Versioned.Interleaving.{Event, winners, start}
use among_clusters.Versioned.Linear.{History, unchanged, won, unanswered}
use among_clusters.Versioned.Linear.Runs.{run_moved}
use among_clusters.Versioned.Linear.Runs.{start-IsInformed}
use among_clusters.Kubernetes.Generations.{IdentityStatus, uint64, uint64-int64, check_generation}

-- A message: its generation and nonce, and when the server records it.
pub record Message : Type 0 where
  pub generation : ℕ
  pub nonce : Text
  pub now : Time

-- The numbers of the list ascend, and the first is above the bound.
abbrev pub Ascending : ℕ → List ℕ → Type 0
Ascending bound [] = Unit {0}
Ascending bound (n ∷ ns) = (bound < n) × Ascending n ns

Ascending-lower : (a b : ℕ) (l : List ℕ) → a ≤ b → Ascending b l → Ascending a l
Ascending-lower a b [] h g = tt
Ascending-lower a b (n ∷ ns) h (m, g) = (omega (arith, h, m), g)

module _ (layout : Rfc3339) (messages : ℕ → Message) where
  unfoldable pub check_of : ℕ → IdentityStatus → Result IdentityStatus
  check_of i = check_generation layout (messages i).now (messages i).generation (messages i).nonce

  module _ {S : Type 0} (api : Api S IdentityStatus) (missing failure : Error) where
    -- The generations that are recorded, in their order; each message makes one attempt.
    unfoldable pub recorded : List Event → S → List ℕ
    recorded es s =
        map (λ i. (messages i).generation)
          (winners api check_of missing failure failure es (start (λ i. 1) s))

  module _ (in_range : (i : ℕ) → (messages i).generation < 2 ^ 64) where
    check_facts :
        (i : ℕ) (v u : IdentityStatus)
        → check_of i v ≡ ok u
        → (uint64 v.last_generation < (messages i).generation)
          × (uint64 u.last_generation ≡ (messages i).generation)
    unfolding check_of check_generation
    check_facts i v u h =
        let back = uint64-int64 (messages i).generation (in_range i) in
        (ground (arith, h), ground (arith, h, back))

    History-Ascending :
        (l : List ℕ) (v w : IdentityStatus)
        → History check_of l v w
        → Ascending (uint64 v.last_generation) (map (λ i. (messages i).generation) l)
    History-Ascending l v w unchanged = tt
    History-Ascending (k ∷ l) v w (won {u = u} i c h) =
        let (above, now) = check_facts i v u c in
        (
          above,
          subst (λ g. Ascending g (map (λ j. (messages j).generation) l)) now
              (History-Ascending l u w h),
        )
    History-Ascending l v w (unanswered {u = u} i c h) =
        let (above, now) = check_facts i v u c in
        Ascending-lower (uint64 v.last_generation) (uint64 u.last_generation) _
          (omega (arith, above, now)) (History-Ascending l u w h)

    -- However the steps of concurrent messages of one cluster interleave, the generations that are recorded
    -- ascend strictly from the last one in the cluster's status, so none is recorded twice.
    pub record_generation-Ascending :
        {S : Type 0} (api : Api S IdentityStatus) (held : S → Option (Versioned IdentityStatus))
        → IsOptimistic api held
        → (missing failure : Error) (es : List Event) (c : Versioned IdentityStatus) (s : S)
        → held s ≡ some c
        → Ascending (uint64 c.value.last_generation) (recorded api missing failure es s)
    unfolding recorded
    record_generation-Ascending api held sound missing failure es c s holds =
        let moved =
          run_moved api held sound check_of missing failure failure es c (start (λ i. 1) s) holds
            (start-IsInformed api held sound check_of missing failure failure (λ i. 1) c s) in
        History-Ascending (winners api check_of missing failure failure es (start (λ i. 1) s))
          c.value moved.object.value moved.history
