-- ===== src/Share/Prg/Laws.antt =====
-- The sharings that are drawn from the generator: the parties' shares lie on one polynomial.
use native.Mathlib.Nat.{mod-eq_of_lt, mod_self}
use linux_copy.Common.{
  le→ltb_false, dec_le, ◌%◌, ℕ, zero, suc, ◌+◌, ◌-◌, ◌*◌, ◌<◌, ◌≤◌, ◌≡◌, ◌≢◌, refl, ap, ◌∙◌, sym,
  arith, ==_ne, lt→ltb, le→leb, lt→leb_false, get_or, dec_lt,
}
use linux_copy.Scalar.{pr}
use linux_copy.Gfp.{GfpScalar, gfp, ◌⊗◌}
use linux_copy.Gfp.Inverse.{gfp-injective}
use linux_copy.Poly.Sum.{dot, sum_congr}
use linux_copy.Poly.Eval.{IsPoly}
use linux_copy.Poly.Lagrange.{Distinct, interpolate, IsPoly-interpolate, interpolate_value}
use linux_copy.ShareBase.{ShareBase, get_reconstruction_vector_with_secret}
use linux_copy.ShareBase.WithSecret.{skip, skip-le, skip-injective, vector_with_secret-eval}
use linux_copy.Share.Prg.{
  material, reconstruction_with_secret_2t, reconstruction_with_secret_t, distribute_2t_sharing_prg,
  get_2t_sharing_prg, t_sharing, has_prng_share, own_t_share,
}

skip_below : (e k : ℕ) → k < e → skip e k ≡ k
unfolding skip
skip_below zero k h = elim h [ ]
skip_below (suc e) zero h = refl
skip_below (suc e) (suc k) h = ap suc (skip_below e k (omega arith))

skip_above : (e k : ℕ) → e ≤ k → skip e k ≡ suc k
unfolding skip
skip_above zero k h = refl
skip_above (suc e) zero h = elim h [ ]
skip_above (suc e) (suc k) h = ap suc (skip_above e k (omega arith))

module _ (e degree : ℕ) (small : degree + 1 < pr) (secret : GfpScalar) (prng : ℕ → GfpScalar) where
  points : ℕ → GfpScalar
  points k = gfp (skip e k)

  points-Distinct : Distinct (degree + 1) points
  unfolding points
  points-Distinct i j hi hj ne eq = ne (
      skip-injective e i j (
        gfp-injective (skip e i) (skip e j) (omega (arith, skip-le e i))
          (omega (arith, skip-le e j)) eq))

  -- The polynomial through the secret and the shares from the generator.
  sharing_polynomial : GfpScalar → GfpScalar
  sharing_polynomial = interpolate (degree + 1) points (material secret prng)

  polynomial-IsPoly : IsPoly (degree + 1) sharing_polynomial
  unfolding sharing_polynomial
  polynomial-IsPoly = IsPoly-interpolate (degree + 1) points (material secret prng)

  at_point : (k : ℕ) → k < degree + 1 → sharing_polynomial (gfp (skip e k)) ≡ material secret prng k
  unfolding sharing_polynomial points
  at_point k hk = interpolate_value (degree + 1) points (material secret prng) points-Distinct k hk

  at_zero : 0 < e → sharing_polynomial (gfp 0) ≡ secret
  unfolding material
  at_zero h =
      ap (λ n. sharing_polynomial (gfp n)) (sym (skip_below e 0 h)) ∙ at_point 0 (omega arith)

  vector-polynomial :
      (point : GfpScalar)
      → e ≤ degree + 1
      → dot
          (degree + 1)
          (λ k. get_or (get_reconstruction_vector_with_secret e point degree) k (gfp 0))
          (material secret prng)
        ≡ sharing_polynomial point
  unfolding dot
  vector-polynomial point he =
      sum_congr (degree + 1) _ _ (λ k hk.
        ap
          (λ (x : GfpScalar).
            get_or (get_reconstruction_vector_with_secret e point degree) k (gfp 0) ⊗ x)
          (sym (at_point k hk)))
      ∙ vector_with_secret-eval e degree point sharing_polynomial he small polynomial-IsPoly

module _ (c : ShareBase) (d : ℕ) (secret : GfpScalar) (prng : ℕ → GfpScalar)
    (dealer : d ≤ c.threshold * 2) (small : c.threshold * 2 + 1 < pr) where
  g : GfpScalar → GfpScalar
  g = sharing_polynomial (d + 1) (c.threshold * 2) small secret prng

  party_share :
      (j : ℕ)
      → j ≤ c.threshold * 2
      → j ≢ d
      → get_2t_sharing_prg (record c { my_num = j }) d prng ≡ g (gfp (j + 1))
  unfolding g get_2t_sharing_prg material
  party_share j hj ne = elim (dec_lt d j) [
    | yes h ↦ rw (lt→ltb d j h) (
        sym (at_point (d + 1) (c.threshold * 2) small secret prng (suc (j - 1)) (omega arith))
        ∙ ap (λ n. g (gfp n)) {x = skip (d + 1) (suc (j - 1))} {y = j + 1}
            (omega (arith, skip_above (d + 1) (suc (j - 1)) (omega arith))))
    | no h ↦ rw (le→ltb_false d j (omega arith)) (
        sym (at_point (d + 1) (c.threshold * 2) small secret prng (suc j) (omega arith))
        ∙ ap (λ n. g (gfp n)) {x = skip (d + 1) (suc j)} {y = j + 1}
            (omega (arith, skip_below (d + 1) (suc j) (omega arith))))
  ]

-- A dealer's sharing of degree 2t without communication: there is a polynomial of that degree whose
-- value at 0 is the secret, whose value at the dealer's point is the share that the dealer computes,
-- and whose value at each other party's point is the share which that party takes from the generator.
pub distribute_2t_sharing_prg_lem :
    (c : ShareBase) (d : ℕ) (secret : GfpScalar) (prng : ℕ → GfpScalar)
    → d ≤ c.threshold * 2
    → c.threshold * 2 + 1 < pr
    → (g : GfpScalar → GfpScalar) × IsPoly (c.threshold * 2 + 1) g
      × (g (gfp 0) ≡ secret)
      × (distribute_2t_sharing_prg (record c { my_num = d }) secret prng ≡ g (gfp (d + 1)))
      × ((j : ℕ)
          → j ≤ c.threshold * 2
          → j ≢ d
          → get_2t_sharing_prg (record c { my_num = j }) d prng ≡ g (gfp (j + 1)))
unfolding g distribute_2t_sharing_prg reconstruction_with_secret_2t
distribute_2t_sharing_prg_lem c d secret prng dealer small = (
  g c d secret prng dealer small,
  polynomial-IsPoly (d + 1) (c.threshold * 2) small secret prng,
  at_zero (d + 1) (c.threshold * 2) small secret prng (omega arith),
  vector-polynomial (d + 1) (c.threshold * 2) small secret prng (gfp (d + 1)) (omega arith),
  party_share c d secret prng dealer small,
)

module _ (c : ShareBase) (secret : GfpScalar) (prng : ℕ → GfpScalar)
    (players : c.n_players ≡ c.threshold * 2 + 1) (small : c.threshold + 1 < pr) where
  f : GfpScalar → GfpScalar
  f = sharing_polynomial 1 c.threshold small secret prng

  row-polynomial :
      (i : ℕ)
      → i ≤ c.threshold
      → t_sharing c c.threshold secret prng i ≡ f (gfp ((c.threshold + 1 + i) % c.n_players + 1))
  unfolding f t_sharing reconstruction_with_secret_t
  row-polynomial i hi = elim (dec_lt i c.threshold) [
    | yes h ↦ rw (lt→ltb i (c.n_players - c.threshold - 1) (omega (arith, players))) (
        vector-polynomial 1 c.threshold small secret prng (gfp (i + (c.threshold + 2)))
          (omega arith)
        ∙ ap (λ n. f (gfp n)) {x = i + (c.threshold + 2)}
            {y = (c.threshold + 1 + i) % c.n_players + 1}
            (omega (
              arith,
              mod-eq_of_lt {n = c.threshold + 1 + i} {m = c.n_players} (omega (arith, players)),
            )))
    | no h ↦ rw (le→ltb_false i (c.n_players - c.threshold - 1) (omega (arith, players))) (
        vector-polynomial 1 c.threshold small secret prng (gfp 1) (omega arith)
        ∙ ap (λ n. f (gfp n)) {x = 1} {y = (c.threshold + 1 + i) % c.n_players + 1}
            (omega (
              arith,
              ap (λ n. n % c.n_players) {x = c.threshold + 1 + i} {y = c.n_players}
                  (omega (arith, players)),
              mod_self c.n_players,
            )))
  ]

  prng_share : (j : ℕ) → 0 < j → j ≤ c.threshold → prng (j - 1) ≡ f (gfp (j + 1))
  unfolding f material
  prng_share j hj ht =
      sym (at_point 1 c.threshold small secret prng (suc (j - 1)) (omega arith))
      ∙ ap (λ n. f (gfp n)) {x = skip 1 (suc (j - 1))} {y = j + 1}
          (omega (arith, skip_above 1 (suc (j - 1)) (omega arith)))

  own_share :
      (d : ℕ)
      → d < c.n_players
      → own_t_share (record c { my_num = d }) c.threshold secret prng ≡ f (gfp (d + 1))
  unfolding own_t_share has_prng_share
  own_share zero hd =
      row-polynomial c.threshold (omega arith)
      ∙ ap (λ n. f (gfp n)) {x = (c.threshold + 1 + c.threshold) % c.n_players + 1} {y = 0 + 1}
          (omega (
            arith,
            ap (λ n. n % c.n_players) {x = c.threshold + 1 + c.threshold} {y = c.n_players}
                (omega (arith, players)),
            mod_self c.n_players,
          ))
  own_share (suc d) hd = elim (dec_le (suc d) c.threshold) [
    | yes h ↦
        rw (le→leb 1 (suc d) (omega arith), le→leb (suc d) c.threshold h)
          (prng_share (suc d) (omega arith) h)
    | no h ↦
        rw
          (
            le→leb 1 (suc d) (omega arith),
            lt→leb_false c.threshold (suc d) (omega arith),
            ==_ne (suc d) 0 (omega arith),
          )
          (row-polynomial (suc d - c.threshold - 1) (omega (arith, players))
            ∙ ap (λ n. f (gfp (n + 1)))
                {x = (c.threshold + 1 + (suc d - c.threshold - 1)) % c.n_players} {y = suc d}
                (ap (λ n. n % c.n_players) {x = c.threshold + 1 + (suc d - c.threshold - 1)}
                    {y = suc d} (omega arith)
                  ∙ mod-eq_of_lt hd))
  ]

-- A dealer's sharing of degree t among 2t + 1 parties: there is a polynomial of that degree whose
-- value at 0 is the secret, whose value at its own point is the share that any dealer computes for
-- itself, whose values at the points of the parties 1 to t are the shares from the generator, and
-- whose values at the points of the other parties are the rows that the dealer packs for them.
pub distribute_t_sharing_prg_lem :
    (c : ShareBase) (secret : GfpScalar) (prng : ℕ → GfpScalar)
    → c.n_players ≡ c.threshold * 2 + 1
    → c.threshold + 1 < pr
    → (g : GfpScalar → GfpScalar) × IsPoly (c.threshold + 1) g
      × (g (gfp 0) ≡ secret)
      × ((d : ℕ)
          → d < c.n_players
          → own_t_share (record c { my_num = d }) c.threshold secret prng ≡ g (gfp (d + 1)))
      × ((j : ℕ) → 0 < j → j ≤ c.threshold → prng (j - 1) ≡ g (gfp (j + 1)))
      × ((i : ℕ)
          → i ≤ c.threshold
          → t_sharing c c.threshold secret prng i
            ≡ g (gfp ((c.threshold + 1 + i) % c.n_players + 1)))
unfolding f
distribute_t_sharing_prg_lem c secret prng players small = (
  f c secret prng players small,
  polynomial-IsPoly 1 c.threshold small secret prng,
  at_zero 1 c.threshold small secret prng (omega arith),
  own_share c secret prng players small,
  prng_share c secret prng players small,
  row-polynomial c secret prng players small,
)
