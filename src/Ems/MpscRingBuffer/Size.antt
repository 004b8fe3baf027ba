-- ===== src/Ems/MpscRingBuffer/Size.antt =====
-- The number of slots of a ring.
use native.Mathlib.Omega.{pow_step}
use valyrian_stock_exchange.Prelude.{
  ℕ, zero, suc, ◌*◌, ◌^◌, ◌≤◌, ◌<◌, ◌≡◌, refl, ltb, ltb→lt, max, arith, if◌then◌else◌, Bool-cases,
  inl, inr,
}
use valyrian_stock_exchange.Ems.MpscRingBuffer.{double_until, normalize_size}

-- A power of two, at least the requested number and less than twice as much; `requested` is two at
-- least.
pub record Normalized (size requested : ℕ) : Type 0 where
  pub exponent : ℕ
  pub power : size ≡ 2 ^ exponent
  pub enough : requested ≤ size
  pub tight : size < 2 * requested

twice : (s p requested : ℕ) → requested ≤ s * (2 * p) → requested ≤ s * 2 * p
twice s p requested h = ground arith

double_until-Normalized :
    (fuel s k requested : ℕ)
    → s ≡ 2 ^ k
    → s < 2 * requested
    → requested ≤ s * 2 ^ fuel
    → Normalized (double_until fuel s requested) requested
unfolding double_until
double_until-Normalized zero s k requested h below enough = record {
  exponent = k;
  power = h;
  enough = omega arith;
  tight = below;
}
double_until-Normalized (suc fuel) s k requested h below enough =
    elim (Bool-cases (ltb s requested)) [
      | inl more ↦
          rw (double_until, more)
            (double_until-Normalized fuel (s * 2) (suc k) requested
              (rw (pow_step 2 k, h) (omega arith)) (omega (arith, ltb→lt s requested more))
              (twice s (2 ^ fuel) requested (rw (pow_step 2 fuel) at enough)))
      | inr done ↦
          rw (double_until, done)
            (record { exponent = k; power = h; enough = ground (arith, done); tight = below })
    ]

-- For a requested size up to 2^63 the loop of normalizeSize ends within the 64 doublings allowed
-- here, and the number of slots is a power of two, at least the requested size and at least two, and
-- less than twice the greater of these.
pub normalize_size-Normalized :
    (requested : ℕ) → requested ≤ 2 ^ 63 → Normalized (normalize_size requested) (max requested 2)
unfolding normalize_size
normalize_size-Normalized requested small =
    let at_least : (if ltb requested 2 then 2 else requested) ≡ max requested 2 = ground arith in
    rw at_least (double_until-Normalized 64 1 0 (max requested 2) refl (omega arith) (omega arith))
