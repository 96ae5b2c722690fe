-- ===== src/Http/Clean.antt =====
-- Actions that leave the state as it was when they answer with an error and stop.
use among_clusters.Prelude.{◌≡◌, ◌≢◌, refl, sym, ap, ◌∙◌, Bool, true, false, Option, none, some}
use among_clusters.Http.{
  Response, Outcome, Action, done, next, pure, present, require, continue, ◌>>=◌,
}

module _ {S A : Type 0} where
  -- The action never changes the state.
  abbrev pub IsReading : Action S A → Type 0
  IsReading m = (s : S) → (m s).1 ≡ s

  -- The action leaves the state as it was, if it stops.
  abbrev pub IsClean : Action S A → Type 0
  IsClean m = (s t : S) (r : Response) → m s ≡ (done r, t) → t ≡ s

  -- The action goes on.
  abbrev pub GoesOn : Action S A → Type 0
  GoesOn m = (s t : S) (r : Response) → m s ≢ (done r, t)

  pub present-IsReading : (o : Option A) (r : Response) → IsReading (present o r)
  unfolding present
  present-IsReading none r s = refl
  present-IsReading (some a) r s = refl

  pub pure-GoesOn : (a : A) → GoesOn (pure {S = S} a)
  unfolding pure
  pure-GoesOn a s t r h = cc

  pub reading-IsClean : (m : Action S A) → IsReading m → IsClean m
  reading-IsClean m reading s t r h = sym (ap_state h) ∙ reading s
    where
      ap_state : {o : Outcome A} → m s ≡ (o, t) → (m s).1 ≡ t
      ap_state e = λ i. (e i).1

pub require-IsReading : {S : Type 0} (b : Bool) (r : Response) → IsReading {S = S} (require b r)
unfolding require
require-IsReading true r s = refl
require-IsReading false r s = refl

module _ {S A B : Type 0} (m : Action S A) (f : A → Action S B) where
  continue_clean :
      (o : Outcome A × S) (s t : S) (r : Response)
      → ((q : Response) (u : S) → o ≡ (done q, u) → u ≡ s)
      → ((a : A) (u : S) → o ≡ (next a, u) → f a u ≡ (done r, t) → t ≡ s)
      → continue o f ≡ (done r, t)
      → t ≡ s
  unfolding continue
  continue_clean (next a, u) s t r stops goes h = goes a u refl h
  continue_clean (done q, u) s t r stops goes h = sym (λ i. (h i).1) ∙ stops q u refl

  -- Reading first, then anything clean.
  pub bind-IsClean : IsReading m → ((a : A) → IsClean (f a)) → IsClean (m >>= f)
  unfolding ◌>>=◌
  bind-IsClean reading clean s t r h =
      continue_clean (m s) s t r (λ q u e. reading-IsClean m reading s u q e)
        (λ a u e k. clean a u t r k ∙ sym (λ i. (e i).1) ∙ reading s) h

  -- Anything clean first, then what always goes on.
  pub bind-IsClean_last : IsClean m → ((a : A) → GoesOn (f a)) → IsClean (m >>= f)
  unfolding ◌>>=◌
  bind-IsClean_last clean on s t r h =
      continue_clean (m s) s t r (λ q u e. clean s u q e) (λ a u e k. absurd (on a u t r k)) h

  continue_on :
      (o : Outcome A × S) (t : S) (r : Response)
      → ((q : Response) (u : S) → o ≢ (done q, u))
      → ((a : A) (u : S) → f a u ≢ (done r, t))
      → continue o f ≢ (done r, t)
  unfolding continue
  continue_on (next a, u) t r goes on h = on a u h
  continue_on (done q, u) t r goes on h = goes q u refl

  pub bind-GoesOn : GoesOn m → ((a : A) → GoesOn (f a)) → GoesOn (m >>= f)
  unfolding ◌>>=◌
  bind-GoesOn goes on s t r = continue_on (m s) t r (λ q u. goes s u q) (λ a u. on a u t r)

-- A part of the state that an action never changes.
module _ {S G : Type 0} (g : S → G) where
  abbrev pub Preserves : {A : Type 0} → Action S A → Type 0
  Preserves m = (s : S) → g (m s).1 ≡ g s

  pub reading-Preserves : {A : Type 0} (m : Action S A) → IsReading m → Preserves m
  reading-Preserves m reading s = ap g (reading s)

  module _ {A B : Type 0} (f : A → Action S B) where
    continue-Preserves :
        ((a : A) → Preserves (f a)) → (o : Outcome A × S) → g (continue o f).1 ≡ g o.1
    unfolding continue
    continue-Preserves keeps (next a, u) = keeps a u
    continue-Preserves keeps (done q, u) = refl

    pub bind-Preserves :
        (m : Action S A) → Preserves m → ((a : A) → Preserves (f a)) → Preserves (m >>= f)
    unfolding ◌>>=◌
    bind-Preserves m keeps_m keeps s = continue-Preserves keeps (m s) ∙ keeps_m s
