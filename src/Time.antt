-- ===== src/Time.antt =====
-- time.Time and time.Duration: an instant is its distance in nanoseconds from Go's zero Time, and
-- a duration is an int64 of nanoseconds.
use among_clusters.Prelude.{ℕ, ◌+◌, ◌-◌, ◌*◌, ◌^◌, ◌≤◌, ◌<◌, ◌≡◌, Bool, true, min, leb, arith, ◌↔◌}
use among_clusters.Prelude.Int.{
  ℤ, pos, negsuc, pos_part, neg_part, ◌+ℤ◌, ◌-ℤ◌, ◌<ℤ◌, ◌≤ℤ◌, ltb_ℤ, ltb_ℤ_iff, eqb_ℤ, eqb_ℤ_iff,
  wrap64, wrap64_in_range,
}

abbrev pub Time : Type 0
Time = ℤ

abbrev pub Duration : Type 0
Duration = ℤ

-- The zero Time.
abbrev pub zero_time : Time
zero_time = pos 0

-- t.IsZero()
unfoldable pub is_zero : Time → Bool
unfolding eqb_ℤ
is_zero t = eqb_ℤ t zero_time

-- t.Before(u)
unfoldable pub before : Time → Time → Bool
unfolding ltb_ℤ
before t u = ltb_ℤ t u

-- t.Add(d)
unfoldable pub add : Time → Duration → Time
unfolding ◌+ℤ◌
add t d = t +ℤ d

-- d clipped to what a Duration holds.
saturate : ℤ → Duration
saturate (pos n) = pos (min n (2 ^ 63 - 1))
saturate (negsuc n) = negsuc (min n (2 ^ 63 - 1))

-- t.Sub(u)
unfoldable pub sub : Time → Time → Duration
unfolding saturate ◌-ℤ◌
sub t u = saturate (t -ℤ u)

-- d <= e
unfoldable pub duration_le : Duration → Duration → Bool
duration_le d e = leb (pos_part d + neg_part e) (pos_part e + neg_part d)

abbrev pub nanoseconds_per_second : ℕ
nanoseconds_per_second = 1000000000

-- The exact product of an integer and the nanoseconds of a second.
scale : ℤ → ℤ
scale (pos n) = pos (n * nanoseconds_per_second)
scale (negsuc n) = negsuc (n * nanoseconds_per_second + (nanoseconds_per_second - 1))

-- time.Duration(n) * time.Second, in int64 arithmetic.
unfoldable pub seconds : ℤ → Duration
unfolding scale wrap64
seconds n = wrap64 (scale n)

pub before_iff : (t u : Time) → (before t u ≡ true) ↔ (t <ℤ u)
unfolding before
before_iff t u = ltb_ℤ_iff t u

pub is_zero_iff : (t : Time) → (is_zero t ≡ true) ↔ (t ≡ zero_time)
unfolding is_zero
is_zero_iff t = eqb_ℤ_iff t zero_time

-- No overflow up to some 292 years.
pub seconds_in_range : (n : ℕ) → n ≤ 9223372036 → seconds (pos n) ≡ pos (n * nanoseconds_per_second)
unfolding seconds
seconds_in_range n h = wrap64_in_range (n * nanoseconds_per_second) (omega arith)

-- Clipping does not change a comparison with a bound that a Duration holds.
pub sub-le_iff :
    (t u : Time) (k : ℕ)
    → k < 2 ^ 63 - 1
    → (duration_le (sub t u) (pos k) ≡ true) ↔ (t ≤ℤ add u (pos k))
unfolding duration_le sub add
sub-le_iff t u k h = ground arith
