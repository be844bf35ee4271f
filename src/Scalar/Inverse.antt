-- ===== src/Scalar/Inverse.antt =====
-- `extend_gcd` and `multiplicative_inverse` of Math/gfpScalar.h: the coefficients are those of
-- Bézout's identity modulo the prime, so that every nonzero residue is inverted.
use Prim.Native.Nat.{◌∣◌}
use mathlib.Core.WellFounded.{Acc}
use native.Mathlib.Nat.{
  div-add-mod, dvd_refl, dvd-zero, dvd-mod_iff, le_of_dvd, div-le_self, mul-add-mod_self_left,
}
use linux_copy.Common.{
  ℕ, zero, suc, ◌+◌, ◌*◌, ◌/◌, ◌%◌, ◌<◌, ◌≤◌, ◌≡◌, refl, ap, ◌∙◌, arith, true, ◌⊎◌,
}
use linux_copy.Common.Order.{lt_acc}
use linux_copy.Common.Modular.{mul_congr_right, add_congr, no_divisor, no_divisor-prime}
use linux_copy.Scalar.{pr, add_mod, mult_mod, additive_inverse, extend_gcd, multiplicative_inverse}
use linux_copy.Scalar.Arith.{add_mod-mod, mult_mod-mod, additive_inverse-sub}

pr_table : no_divisor 46340 pr ≡ true
unfolding no_divisor
pr_table = refl

pub pr_prime : (g : ℕ) → g ∣ pr → (g ≡ 1) ⊎ (g ≡ pr)
pr_prime g = no_divisor-prime 46340 pr g pr_table (omega arith) (omega arith)

-- One unrolling keeps the identity: `a = q b + r` and `y = u - q v`.
bezout_step :
    (a b u v y g : ℕ)
    → (b * u + a % b * v) % pr ≡ g % pr
    → (y + a / b * v) % pr ≡ u % pr
    → (a * v + b * y) % pr ≡ g % pr
bezout_step a b u v y g inner step = ap (λ (t : ℕ). t % pr) regroup ∙ moved ∙ inner
  where
    regroup : a * v + b * y ≡ b * (y + a / b * v) + a % b * v
    regroup = omega (arith, ap (λ (t : ℕ). t * v) (div-add-mod a b))

    moved : (b * (y + a / b * v) + a % b * v) % pr ≡ (b * u + a % b * v) % pr
    moved = add_congr pr _ _ _ _ (mul_congr_right pr b _ _ step) refl

-- The update `y - (a / b) x` of the second coefficient.
update_mod :
    (q u v : ℕ)
    → q ≤ pr
    → u < pr
    → v < pr
    → (add_mod u (additive_inverse (mult_mod q v)) < pr)
      × ((add_mod u (additive_inverse (mult_mod q v)) + q * v) % pr ≡ u % pr)
update_mod q u v hq hu hv = ground (
  arith,
  mult_mod-mod q v hq hv,
  additive_inverse-sub (mult_mod q v) (omega (arith, mult_mod-mod q v hq hv)),
  add_mod-mod u (additive_inverse (mult_mod q v)),
)

extend_gcd-bezout :
    (a b : ℕ) (w : Acc ◌<◌ b)
    → a ≤ pr
    → b < pr
    → ((extend_gcd a b w).0 < pr)
      × ((extend_gcd a b w).1 < pr)
      × ((g : ℕ) × (g ∣ a)
          × (g ∣ b)
          × ((a * (extend_gcd a b w).0 + b * (extend_gcd a b w).1) % pr ≡ g % pr))
unfolding extend_gcd
extend_gcd-bezout a zero (Acc.intro _ smaller) ha hb =
    (omega arith, omega arith, (a, dvd_refl a, dvd-zero a, omega arith))
extend_gcd-bezout a (suc b) (Acc.intro _ smaller) ha hb =
    let (hu, hv, (g, dvd_b, dvd_r, e)) =
      extend_gcd-bezout (suc b) (a % suc b) (smaller (a % suc b) (omega arith)) (omega arith)
        (omega arith) in
    let (hy, step) = update_mod (a / suc b) _ _ (omega (arith, div-le_self a (suc b))) hu hv in
    (hv, hy, (g, (dvd-mod_iff g dvd_b).0 dvd_r, dvd_b, bezout_step a (suc b) _ _ _ g e step))

-- Every nonzero residue times its inverse is one.
pub mul-multiplicative_inverse :
    (a : ℕ)
    → 0 < a
    → a < pr
    → (multiplicative_inverse a < pr) × (a * multiplicative_inverse a % pr ≡ 1)
unfolding multiplicative_inverse
mul-multiplicative_inverse a pos ha =
    let (hx, hy, (g, dvd_pr, dvd_a, e)) = extend_gcd-bezout pr a (lt_acc a) (omega arith) ha in
    (hy, grind (arith, e, pr_prime g dvd_pr, le_of_dvd pos dvd_a, mul-add-mod_self_left))
