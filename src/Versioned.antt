-- ===== src/Versioned.antt =====
-- Changes of one object of the Kubernetes API server with optimistic concurrency, as the methods of
-- internal/api/sovereign_store.go make them: Get, a check that yields the new content, and an Update
-- that presents the version that was read. The API server is a parameter, with its documented
-- behaviour in IsOptimistic.
pub mod Alone
pub mod Interleaving
pub mod Linear
pub mod Rounds
use among_clusters.Prelude.{ℕ, zero, suc, ◌<◌, ◌≡◌, ◌⊎◌, Option, none, some, List, [], ◌∷◌}
use among_clusters.Result.{Result, Error, ok, err}

-- An object with its resourceVersion.
pub record Versioned (V : Type 0) : Type 0 where
  pub version : ℕ
  pub value : V

-- The outcome of an Update: done, a conflict (IsConflict), or another error.
pub data Update : Type 0 where
  updated conflict failed : Update

-- Get and Update of one object; none is an error.
pub record Api (S V : Type 0) : Type 0 where
  pub get : S → Option (Versioned V)
  pub update : Versioned V → S → Update × S

-- An Update that presented `v` took effect: `v` carries the version of the object in the server, and its
-- content stands there with a higher version.
pub record Wrote {S V : Type 0} (held : S → Option (Versioned V)) (v : Versioned V) (s t : S)
    : Type 0 where
  pub old : Versioned V
  pub new : Versioned V
  pub before : held s ≡ some old
  pub same_version : old.version ≡ v.version
  pub after : held t ≡ some new
  pub content : new.value ≡ v.value
  pub higher : old.version < new.version

-- What the API server documents, over the object that it holds: a Get that succeeds returns it; an
-- Update that succeeds took effect; a conflict changes nothing; after another error, such as a
-- timeout, the Update either took effect or not.
pub record IsOptimistic {S V : Type 0} (api : Api S V) (held : S → Option (Versioned V))
    : Type 0 where
  pub get_held : (s : S) (v : Versioned V) → api.get s ≡ some v → held s ≡ some v
  pub update_done : (v : Versioned V) (s t : S) → api.update v s ≡ (updated, t) → Wrote held v s t
  pub update_conflict :
      (v : Versioned V) (s t : S) → api.update v s ≡ (conflict, t) → held t ≡ held s
  pub update_failed :
      (v : Versioned V) (s t : S)
      → api.update v s ≡ (failed, t)
      → (held t ≡ held s) ⊎ Wrote held v s t

module _ {S V : Type 0} (api : Api S V) (check : V → Result V) (missing clash failure : Error) where
  -- What follows an Update: success, the next attempt, or the error.
  unfoldable pub after_update : Update × S → V → (S → Result V × S) → Result V × S
  after_update (updated, t) u again = (ok u, t)
  after_update (conflict, t) u again = again t
  after_update (failed, t) u again = (err failure, t)

  -- What follows the check of an object that was read.
  unfoldable pub checked : Result V → Versioned V → (S → Result V × S) → S → Result V × S
  unfolding after_update
  checked (ok u) v again s = after_update (api.update (record v { value = u }) s) u again
  checked (err e) v again s = (err e, s)

  -- What follows a Get.
  unfoldable pub after_read : Option (Versioned V) → (S → Result V × S) → S → Result V × S
  unfolding checked
  after_read none again s = (err missing, s)
  after_read (some v) again s = checked (check v.value) v again s

  -- The loop of `n` attempts. A method without a loop makes one.
  unfoldable pub attempts : ℕ → S → Result V × S
  unfolding after_read
  attempts zero s = (err clash, s)
  attempts (suc n) s = after_read (api.get s) (attempts n) s
