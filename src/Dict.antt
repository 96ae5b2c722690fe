-- ===== src/Dict.antt =====
-- Go's map with string keys, kept as the list of its writes, the latest one first; a deletion is a
-- write of nothing. The program reads, writes and deletes entries by key; where it ranges over a
-- map, the order makes no difference. The representation stays in this file.
use mathlib.Core.Option
use among_clusters.Prelude.{
  ◌≡◌, refl, Bool, true, false, Option, none, some, List, [], ◌∷◌, arith, ap, Bool-cases, inl, inr,
  if◌then◌else◌,
}
use among_clusters.Text.{Text, ◌==◌}
use among_clusters.Text.Equality.{eq_iff}

pub record Dict {ℓ} (V : Type ℓ) : Type ℓ where
  writes : List (Text × Option V)

-- The value that the last write of a key gave it.
latest {ℓ} : {V : Type ℓ} → List (Text × Option V) → Text → Option V
latest [] asked = none
latest ((written, value) ∷ older) asked =
    let before = latest older asked in if written == asked then value else before

unfoldable pub empty {ℓ} : {V : Type ℓ} → Dict V
empty = record { writes = [] }

-- value, ok := d[asked]
unfoldable pub get {ℓ} : {V : Type ℓ} → Dict V → Text → Option V
unfolding latest
get d asked = latest d.writes asked

-- value, ok := d[asked] as the test `ok`.
unfoldable pub has {ℓ} : {V : Type ℓ} → Dict V → Text → Bool
unfolding get
has d asked = elim (get d asked) [ none ↦ false | some value ↦ true ]

module _ {ℓ} {V : Type ℓ} (d : Dict V) (key : Text) where
  -- d[key] = value
  unfoldable pub put : V → Dict V
  put value = record { writes = (key, some value) ∷ d.writes }

  -- delete(d, key)
  unfoldable pub remove : Dict V
  remove = record { writes = (key, none) ∷ d.writes }

  module _ (asked : Text) where
    pub get-put :
        (value : V) → get (put value) asked ≡ (if key == asked then some value else get d asked)
    unfolding put get
    get-put value = refl

    pub get-remove : get remove asked ≡ (if key == asked then none else get d asked)
    unfolding remove get
    get-remove = refl

    -- A key that is there keeps its value when a key that is not there gets one.
    pub put_keeps :
        (value : V) {old : V}
        → has d key ≡ false
        → get d asked ≡ some old
        → get (put value) asked ≡ some old
    unfolding has
    put_keeps value h e = let law = get-put value in ground (arith, law, eq_iff key asked, h, e)

pub get-empty {ℓ} : {V : Type ℓ} (asked : Text) → get (empty {V = V}) asked ≡ none
unfolding empty get
get-empty asked = refl

pub ruleset dict_laws = (get-put, get-remove, get-empty)

module _ {ℓ} {V : Type ℓ} where
  map_writes : (Text → V → V) → List (Text × Option V) → List (Text × Option V)
  map_writes f [] = []
  map_writes f ((written, value) ∷ older) =
      (written, Option.map (f written) value) ∷ map_writes f older

  -- Every entry replaced by its image.
  unfoldable pub map : (Text → V → V) → Dict V → Dict V
  unfolding map_writes
  map f d = record { writes = map_writes f d.writes }

  map_value-if :
      (f : V → V) (b : Bool) (o p : Option V)
      → Option.map f (if b then o else p) ≡ (if b then Option.map f o else Option.map f p)
  map_value-if f true o p = refl
  map_value-if f false o p = refl

  latest-map_writes :
      (f : Text → V → V) (l : List (Text × Option V)) (asked : Text)
      → latest (map_writes f l) asked ≡ Option.map (f asked) (latest l asked)
  unfolding latest map_writes
  latest-map_writes f [] asked = refl
  latest-map_writes f ((written, value) ∷ older) asked =
      let ih = latest-map_writes f older asked in
      elim (Bool-cases (written == asked)) [
        | inl same ↦
            let here = (eq_iff written asked).0 same in
            rw same (ap (λ k. Option.map (f k) value) here)
        | inr other ↦ rw other ih
      ]

  pub get-map :
      (f : Text → V → V) (d : Dict V) (asked : Text)
      → get (map f d) asked ≡ Option.map (f asked) (get d asked)
  unfolding map get
  get-map f d asked = latest-map_writes f d.writes asked

  map_value-map_value :
      (f g : V → V) (o : Option V) → Option.map f (Option.map g o) ≡ Option.map (λ v. f (g v)) o
  map_value-map_value f g none = refl
  map_value-map_value f g (some v) = refl

  map_writes-map_writes :
      (f g : Text → V → V) (l : List (Text × Option V))
      → map_writes f (map_writes g l) ≡ map_writes (λ k v. f k (g k v)) l
  unfolding map_writes
  map_writes-map_writes f g [] = refl
  map_writes-map_writes f g ((written, value) ∷ older) = λ i.
      ((written, map_value-map_value (f written) (g written) value i)
        ∷ map_writes-map_writes f g older i)

  pub map-map : (f g : Text → V → V) (d : Dict V) → map f (map g d) ≡ map (λ k v. f k (g k v)) d
  unfolding map
  map-map f g d = λ i. record { writes = map_writes-map_writes f g d.writes i }
