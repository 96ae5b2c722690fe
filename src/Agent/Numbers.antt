-- ===== src/Agent/Numbers.antt =====
-- cmd/agent/main.go: the numbers that the agent writes into its Secret's annotations, as strconv reads them back.
use among_clusters.Prelude.{
  ℕ, zero, suc, ◌+◌, ◌*◌, ◌/◌, ◌%◌, ◌^◌, ◌<◌, ◌≡◌, refl, sym, ap, ◌∙◌, [], ◌∷◌, ◌++◌, arith, ltb,
  false, Bool-cases, inl, inr, append_assoc, append-nil,
}
use among_clusters.Text.{Text, is_empty}
use among_clusters.Agent.{digits_of, format_uint, parse_digits, parse_uint}

parse_digit :
    (m d : ℕ) (t : Text)
    → d < 10
    → m * 10 + d < 2 ^ 64
    → parse_digits m ((b'0' + d) ∷ t) ≡ parse_digits (m * 10 + d) t
unfolding parse_digits
parse_digit m d t small fits = ground arith

parse_digits-digits_of :
    (fuel n : ℕ) (t : Text)
    → n < 10 ^ fuel
    → n < 2 ^ 64
    → parse_digits 0 (digits_of fuel n ++ t) ≡ parse_digits n t
unfolding digits_of
parse_digits-digits_of zero n t h fits = ap (λ k. parse_digits k t) (omega arith)
parse_digits-digits_of (suc fuel) n t h fits = elim (Bool-cases (ltb n 10)) [
  | inl e ↦ rw e (
      parse_digit 0 n t (ground (arith, e)) (omega arith)
      ∙ ap (λ k. parse_digits k t) (omega arith))
  | inr e ↦
      let earlier =
        parse_digits-digits_of fuel (n / 10) ((b'0' + n % 10) ∷ t) (omega arith) (omega arith) in
      let last = parse_digit (n / 10) (n % 10) t (omega arith) (omega arith) in
      rw e (
        ap (parse_digits 0) (append_assoc (digits_of fuel (n / 10)) ((b'0' + n % 10) ∷ []) t)
        ∙ earlier
        ∙ last
        ∙ ap (λ k. parse_digits k t) (omega arith))
]

-- A number that was written as a uint64 is read back.
pub parse_uint-format_uint : (n : ℕ) → n < 2 ^ 64 → parse_uint (format_uint n) ≡ n
unfolding parse_uint format_uint parse_digits
parse_uint-format_uint n fits =
    ap (parse_digits 0) (sym (append-nil (digits_of 20 n)))
    ∙ parse_digits-digits_of 20 n [] (omega arith) fits

nonempty_append : (s : Text) (c : ℕ) → is_empty (s ++ c ∷ []) ≡ false
unfolding is_empty
nonempty_append [] c = refl
nonempty_append (d ∷ s) c = refl

pub format_uint_nonempty : (n : ℕ) → is_empty (format_uint n) ≡ false
unfolding format_uint digits_of is_empty
format_uint_nonempty n = elim (Bool-cases (ltb n 10)) [
  | inl e ↦ rw e refl
  | inr e ↦ rw e (nonempty_append (digits_of 19 (n / 10)) (b'0' + n % 10))
]
