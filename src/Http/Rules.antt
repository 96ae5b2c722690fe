-- ===== src/Http/Rules.antt =====
-- Inversion of a chain that went on: one rule for each way to begin it. Each hands the facts on to the
-- proof of the conclusion.
use among_clusters.Prelude.{◌≡◌, refl, Bool, true, false, Option, none, some}
use among_clusters.Result.{Result, Error, ok, err}
use among_clusters.Http.{
  Response, Outcome, Action, done, next, present, call, answer, require, continue, ◌>>=◌, ◌>>◌,
}

module _ {S A B : Type 0} where
  continue_next {ℓ} :
      {P : Type ℓ} (o : Outcome A × S) (f : A → Action S B) (b : B) (t : S)
      → continue o f ≡ (next b, t)
      → ((a : A) (u : S) → o ≡ (next a, u) → f a u ≡ (next b, t) → P)
      → P
  unfolding continue
  continue_next (next a, s) f b t h k = k a s refl h
  continue_next (done r, s) f b t h k = cc

  pub bind_next {ℓ} :
      {P : Type ℓ} (m : Action S A) (f : A → Action S B) (s : S) {t : S} {b : B}
      → (m >>= f) s ≡ (next b, t)
      → ((a : A) (u : S) → m s ≡ (next a, u) → f a u ≡ (next b, t) → P)
      → P
  unfolding ◌>>=◌
  bind_next m f s {t} {b} h k = continue_next (m s) f b t h k

  present_from {ℓ} :
      {P : Type ℓ} (o : Option A) (r : Response) (f : A → Action S B) (s t : S) (b : B)
      → (present o r >>= f) s ≡ (next b, t)
      → ((a : A) → o ≡ some a → f a s ≡ (next b, t) → P)
      → P
  unfolding present ◌>>=◌
  present_from none r f s t b h k = cc
  present_from (some a) r f s t b h k = k a refl h

  pub present_next {ℓ} :
      {P : Type ℓ} (o : Option A) (r : Response) (f : A → Action S B) (s : S) {t : S} {b : B}
      → (present o r >>= f) s ≡ (next b, t)
      → ((a : A) → o ≡ some a → f a s ≡ (next b, t) → P)
      → P
  present_next o r f s {t} {b} h k = present_from o r f s t b h k

  answer_from {ℓ} :
      {P : Type ℓ} (o : Result A × S) (g : Error → Response) (f : A → Action S B) (t : S) (b : B)
      → continue (answer o g) f ≡ (next b, t)
      → ((a : A) (u : S) → o ≡ (ok a, u) → f a u ≡ (next b, t) → P)
      → P
  unfolding answer continue
  answer_from (ok a, u) g f t b h k = k a u refl h
  answer_from (err e, u) g f t b h k = cc

  pub call_next {ℓ} :
      {P : Type ℓ} (m : S → Result A × S) (g : Error → Response) (f : A → Action S B) (s : S)
      {t : S} {b : B}
      → (call m g >>= f) s ≡ (next b, t)
      → ((a : A) (u : S) → m s ≡ (ok a, u) → f a u ≡ (next b, t) → P)
      → P
  unfolding call ◌>>=◌
  call_next m g f s {t} {b} h k = answer_from (m s) g f t b h k

module _ {S B : Type 0} where
  require_from {ℓ} :
      {P : Type ℓ} (c : Bool) (r : Response) (f : Action S B) (s t : S) (b : B)
      → (require c r >> f) s ≡ (next b, t)
      → (c ≡ true → f s ≡ (next b, t) → P)
      → P
  unfolding require ◌>>=◌
  require_from true r f s t b h k = k refl h
  require_from false r f s t b h k = cc

  pub require_next {ℓ} :
      {P : Type ℓ} (c : Bool) (r : Response) (f : Action S B) (s : S) {t : S} {b : B}
      → (require c r >> f) s ≡ (next b, t)
      → (c ≡ true → f s ≡ (next b, t) → P)
      → P
  require_next c r f s {t} {b} h k = require_from c r f s t b h k
