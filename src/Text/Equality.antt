-- ===== src/Text/Equality.antt =====
-- Comparing texts decides their equality.
use among_clusters.Prelude.{◌≡◌, refl, subst, ◌↔◌, true, [], ◌∷◌, nat_eq, nat_eq_iff, and-eq_true}
use among_clusters.Text.{Text, ◌==◌, is_empty}

pub eq_refl : (s : Text) → (s == s) ≡ true
unfolding ◌==◌
eq_refl [] = refl
eq_refl (c ∷ s) = (and-eq_true (nat_eq c c) (s == s)).1 ((nat_eq_iff c c).1 refl, eq_refl s)

eq_of_== : (s t : Text) → (s == t) ≡ true → s ≡ t
unfolding ◌==◌
eq_of_== [] [] h = refl
eq_of_== [] (d ∷ t) h = cc
eq_of_== (c ∷ s) [] h = cc
eq_of_== (c ∷ s) (d ∷ t) h =
    let both = (and-eq_true (nat_eq c d) (s == t)).0 h in
    let head : c ≡ d = (nat_eq_iff c d).0 both.0 in
    let tail = eq_of_== s t both.1 in cc (head, tail)

pub eq_iff : (s t : Text) → ((s == t) ≡ true) ↔ (s ≡ t)
eq_iff s t = (eq_of_== s t, λ e. subst (λ u. (s == u) ≡ true) e (eq_refl s))

pub is_empty_iff : (s : Text) → (is_empty s ≡ true) ↔ (s ≡ [])
unfolding is_empty
is_empty_iff [] = ((λ h. refl), (λ h. refl))
is_empty_iff (c ∷ s) = ((λ h. cc), (λ h. cc))
