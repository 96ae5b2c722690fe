-- ===== src/Versioned/Alone.antt =====
-- A method that no other process disturbs: its steps are its loop, and what it changes.
use among_clusters.Prelude.{ℕ, zero, suc, ◌≡◌, refl, Option, none, some}
use among_clusters.Result.{Result, Error, ok, err}
use among_clusters.Versioned.{
  Versioned, Update, updated, conflict, failed, Api, attempts, after_update, checked, after_read,
}
use among_clusters.Versioned.Interleaving.{
  Progress, reading, finished, proceed, after_check, after_get, after_write,
}

module _ {S V : Type 0} (api : Api S V) (check : V → Result V) (missing clash failure : Error) where
  -- `k` steps of the process with none of another.
  unfoldable pub steps : ℕ → Progress V → S → Progress V × S
  steps zero p s = (p, s)
  steps (suc k) p s =
      let after = proceed api missing clash failure check p s in steps k after.0 after.1

  steps-finished : (k : ℕ) (r : Result V) (s : S) → steps k (finished r) s ≡ (finished r, s)
  unfolding steps proceed
  steps-finished zero r s = refl
  steps-finished (suc k) r s = steps-finished k r s

  unfoldable pub rounds : ℕ → ℕ
  rounds zero = 1
  rounds (suc n) = suc (suc (rounds n))

  -- The process is at the end with what the loop returned.
  abbrev ended : Result V × S → Progress V × S
  ended o = (finished o.0, o.1)

  module _ (n : ℕ) (again : S → Result V × S)
      (ih : (t : S) → steps (rounds n) (reading n) t ≡ ended (again t)) where
    steps-after_write :
        (u : V) (o : Update × S)
        → steps (rounds n) (after_write failure n u o).0 (after_write failure n u o).1
          ≡ ended (after_update api check missing clash failure o u again)
    unfolding after_write after_update
    steps-after_write u (updated, t) = steps-finished (rounds n) (ok u) t
    steps-after_write u (conflict, t) = ih t
    steps-after_write u (failed, t) = steps-finished (rounds n) (err failure) t

    steps-after_check :
        (v : Versioned V) (r : Result V) (s : S)
        → steps (suc (rounds n)) (after_check n v r) s
          ≡ ended (checked api check missing clash failure r v again s)
    unfolding after_check checked steps proceed
    steps-after_check v (ok u) s = steps-after_write u (api.update (record v { value = u }) s)
    steps-after_check v (err e) s = steps-finished (rounds n) (err e) s

    steps-after_get :
        (o : Option (Versioned V)) (s : S)
        → steps (suc (rounds n)) (after_get missing check n o) s
          ≡ ended (after_read api check missing clash failure o again s)
    unfolding after_get after_read
    steps-after_get none s = steps-finished (suc (rounds n)) (err missing) s
    steps-after_get (some v) s = steps-after_check v (check v.value) s

  -- Undisturbed, the steps of a process end with the result of the loop.
  pub steps-attempts :
      (n : ℕ) (s : S)
      → steps (rounds n) (reading n) s ≡ ended (attempts api check missing clash failure n s)
  unfolding rounds attempts steps proceed
  steps-attempts zero s = refl
  steps-attempts (suc n) s =
      steps-after_get n (attempts api check missing clash failure n) (steps-attempts n) (api.get s)
        s
