-- ===== src/Prelude/Clock.antt =====
-- Go's `time.Time` and `time.Duration`: nanoseconds, with the saturation of `Sub` and the
-- wrap-around of a product of durations written out.
use tidy_dav.Prelude.{
  ℕ, ◌+◌, ◌-◌, ◌*◌, ◌/◌, ◌%◌, ◌^◌, Bool, eqb, ltb, lt→ltb, ◌≡◌, ◌<◌, ◌≤◌, refl, arith,
  if◌then◌else◌,
}
use tidy_dav.Prelude.Int.{ℤ, pos, negsuc}

-- Nanoseconds since Go's zero time, which is 0.
abbrev pub Time : Type 0
Time = ℕ

abbrev pub is_zero : Time → Bool
is_zero t = eqb t 0

-- The nanoseconds of a second.
abbrev pub second : ℕ
second = 1000000000

abbrev complement : ℤ → ℤ
complement (pos n) = negsuc n
complement (negsuc n) = pos n

abbrev wrap_ℕ : ℕ → ℤ
wrap_ℕ n = let m = n % 2 ^ 64 in if ltb m (2 ^ 63) then pos m else negsuc (2 ^ 64 - 1 - m)

-- A sum or a product of 64 bits: its two's complement.
abbrev pub int64 : ℤ → ℤ
int64 (pos n) = wrap_ℕ n
int64 (negsuc n) = complement (wrap_ℕ n)

abbrev scale : ℕ → ℤ → ℤ
scale k (pos n) = pos (k * n)
scale k (negsuc n) = negsuc (k * (n + 1) - 1)

-- `time.Duration(n) * unit`, where the unit is of `k` nanoseconds.
abbrev pub times : ℕ → ℤ → ℤ
times k n = int64 (scale k n)

-- `now.Sub(t)`, which stops at the least and at the greatest duration.
abbrev pub elapsed : Time → Time → ℤ
elapsed now t =
    if ltb now t
    then (if ltb (2 ^ 63) (t - now) then negsuc (2 ^ 63 - 1) else negsuc (t - now - 1))
    else (if ltb (2 ^ 63 - 1) (now - t) then pos (2 ^ 63 - 1) else pos (now - t))

-- The instant that a column keeps: `t.Format(time.RFC3339)` has whole seconds.
abbrev pub at_second : Time → Time
at_second t = t / second * second

-- A duration in range does not wrap around.
pub times-pos : (k n : ℕ) → k * n < 2 ^ 63 → times k (pos n) ≡ pos (k * n)
times-pos k n h =
    let small : k * n % 2 ^ 64 ≡ k * n = omega (arith, h) in
    rw (small, lt→ltb (k * n) (2 ^ 63) h) refl

-- Nor does the time between two instants in range saturate.
pub elapsed-pos : (now t : Time) → t ≤ now → now - t < 2 ^ 63 → elapsed now t ≡ pos (now - t)
elapsed-pos now t p q = ground arith
