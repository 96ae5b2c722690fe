-- ===== src/Text/Splitting.antt =====
-- Prefixes, and the parts of a text between the bytes of a kind.
use among_clusters.Prelude.{
  ℕ, ◌≡◌, ◌≢◌, refl, ap, ◌∙◌, true, false, [], ◌∷◌, ◌++◌, All, nat_eq, nat_eq_iff, length, drop,
  append_assoc, append-nil,
}
use among_clusters.Text.{Text, has_prefix, trim_prefix, split, split_from}

pub has_prefix-append : (p s : Text) → has_prefix (p ++ s) p ≡ true
unfolding has_prefix
has_prefix-append [] [] = refl
has_prefix-append [] (c ∷ s) = refl
has_prefix-append (d ∷ p) s = rw ((nat_eq_iff d d).1 refl) (has_prefix-append p s)

pub drop_append : (p s : Text) → drop (length p) (p ++ s) ≡ s
drop_append [] s = refl
drop_append (c ∷ p) s = drop_append p s

pub trim_prefix-append : (p s : Text) → trim_prefix (p ++ s) p ≡ s
unfolding trim_prefix
trim_prefix-append p s = rw (has_prefix-append p s) (drop_append p s)

-- The byte does not occur in the text.
abbrev pub Lacks : ℕ → Text → Type 0
Lacks sep s = All (λ c. nat_eq c sep ≡ false) s

split_from_rest :
    (sep : ℕ) (cur s rest : Text)
    → Lacks sep s
    → split_from sep cur (s ++ sep ∷ rest) ≡ (cur ++ s) ∷ split_from sep [] rest
unfolding split_from
split_from_rest sep cur [] rest h =
    rw ((nat_eq_iff sep sep).1 refl, split_from) (rw (append-nil cur) refl)
split_from_rest sep cur (c ∷ s) rest (h, k) =
    rw (h, split_from)
      (split_from_rest sep (cur ++ c ∷ []) s rest k
        ∙ ap (λ x. x ∷ split_from sep [] rest) (append_assoc cur (c ∷ []) s))

split_from_last : (sep : ℕ) (cur s : Text) → Lacks sep s → split_from sep cur s ≡ (cur ++ s) ∷ []
unfolding split_from
split_from_last sep cur [] h = rw (append-nil cur) refl
split_from_last sep cur (c ∷ s) (h, k) =
    rw (h, split_from)
      (split_from_last sep (cur ++ c ∷ []) s k ∙ ap (λ x. x ∷ []) (append_assoc cur (c ∷ []) s))

pub split_two :
    (sep : ℕ) (s t : Text) → Lacks sep s → Lacks sep t → split (s ++ sep ∷ t) sep ≡ s ∷ t ∷ []
unfolding split
split_two sep s t h k = split_from_rest sep [] s t h ∙ ap (λ l. s ∷ l) (split_from_last sep [] t k)

pub append_nonempty : (s t : Text) → t ≢ [] → s ++ t ≢ []
append_nonempty [] t h e = h e
append_nonempty (c ∷ s) t h e = absurd cc
