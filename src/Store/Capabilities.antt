-- ===== src/Store/Capabilities.antt =====
-- capabilitiesAllowed of internal/api/sovereign_store.go decides inclusion.
use among_clusters.Prelude.{
  ◌≡◌, refl, true, false, List, [], ◌∷◌, ◌↔◌, ◌⊎◌, inl, inr, ◌||◌, arith, All, In, and-eq_true,
}
use among_clusters.Text.{Text, ◌==◌}
use among_clusters.Text.Equality.{eq_iff}
use among_clusters.Dict
use among_clusters.Dict.{Dict, dict_laws, get-put, get-empty}
use among_clusters.Store.{allow, all_in, capabilities_allowed}

has-put :
    (d : Dict (Unit {0})) (k j : Text) → Dict.has (Dict.put d k tt) j ≡ (k == j || Dict.has d j)
unfolding Dict.has Dict.get
has-put d k j = ground (arith, get-put d k j tt)

has-empty : (j : Text) → Dict.has (Dict.empty {V = Unit {0}}) j ≡ false
unfolding Dict.has Dict.get
has-empty j = ground (arith, get-empty {V = Unit {0}} j)

-- The map holds what it held before and the capabilities that the loop puts in.
has-allow :
    (cs : List Text) (d : Dict (Unit {0})) (c : Text)
    → (Dict.has (allow d cs) c ≡ true) ↔ ((Dict.has d c ≡ true) ⊎ In c cs)
unfolding allow
has-allow [] d c = ((λ h. inl h), (λ h. elim h [ inl e ↦ e | inr f ↦ absurd f ]))
has-allow (x ∷ cs) d c = (
  (λ h. ground (arith, (has-allow cs (Dict.put d x tt) c).0 h, has-put d x c, eq_iff x c)),
  (λ h. (has-allow cs (Dict.put d x tt) c).1 (ground (arith, h, has-put d x c, eq_iff x c))),
)

all_in_iff :
    (d : Dict (Unit {0})) (cs : List Text)
    → (all_in d cs ≡ true) ↔ All (λ c. Dict.has d c ≡ true) cs
unfolding all_in
all_in_iff d [] = ((λ h. tt), (λ h. refl))
all_in_iff d (c ∷ cs) = (
  (λ h.
      let both = (and-eq_true (Dict.has d c) (all_in d cs)).0 h in
      (both.0, (all_in_iff d cs).0 both.1)),
  (λ h. (and-eq_true (Dict.has d c) (all_in d cs)).1 (h.0, (all_in_iff d cs).1 h.1)),
)

allowed_iff :
    (invited : List Text) (c : Text) → (Dict.has (allow Dict.empty invited) c ≡ true) ↔ In c invited
allowed_iff invited c = (
  (λ h. elim ((has-allow invited Dict.empty c).0 h) [ inl e ↦ cc (e, has-empty c) | inr i ↦ i ]),
  (λ h. (has-allow invited Dict.empty c).1 (inr h)),
)

All-map : {P Q : Text → Type 0} (cs : List Text) → ((c : Text) → P c → Q c) → All P cs → All Q cs
All-map [] f h = tt
All-map (c ∷ cs) f h = (f c h.0, All-map cs f h.1)

-- The requested capabilities are allowed exactly if each of them was invited.
pub capabilities_allowed_iff :
    (invited requested : List Text)
    → (capabilities_allowed invited requested ≡ true) ↔ All (λ c. In c invited) requested
unfolding capabilities_allowed
capabilities_allowed_iff invited requested = (
  (λ h.
      All-map requested (λ c. (allowed_iff invited c).0)
        ((all_in_iff (allow Dict.empty invited) requested).0 h)),
  (λ h.
      (all_in_iff (allow Dict.empty invited) requested).1
        (All-map requested (λ c. (allowed_iff invited c).1) h)),
)
