-- ===== src/Tests/Triples.antt =====
-- Beaver triples of three parties.
use linux_copy.Common.{ℕ, refl, ap, ap₂, ◌∙◌, sym}
use linux_copy.Gfp.{GfpScalar, gfp, ◌⊕◌, ◌⊖◌, ◌⊗◌}
use linux_copy.Gfp.Ring.{gfp-+, gfp-*}
use linux_copy.Gfp.Inverse.{sub_of_add}
use linux_copy.Network.Joint.{Joint}
use linux_copy.ShareBundle.{ShareBundle}
use linux_copy.ShareBundle.Reduce.Exists.{product_bundle}
use linux_copy.BeaverTriple.{BeaverTriple, x_times, x_plus, y_times, y_plus}
use linux_copy.BeaverTriple.Values.{IsTriple}
use linux_copy.BeaverTriple.Affine.{affine-IsTriple}
use linux_copy.Tests.{three_parties}
use linux_copy.Tests.Protocols.{poly, poly-IsPoly, poly-zero, product}
use linux_copy.Tests.Bundles.{nothing}

abbrev factor : GfpScalar → GfpScalar
factor p = poly 1 6 (λ k. 8) p

-- Triples for 3 and 6: `a`, `b` and `c` share 2, 3 and 6, and `u` and `v` are 5 and 9.
abbrev two_factors : ℕ → BeaverTriple
two_factors i = record {
  a = product_bundle three_parties 1 1 (λ e p. poly 1 2 (λ k. 4) p) nothing i;
  b = product_bundle three_parties 1 1 (λ e p. poly 1 3 (λ k. 5) p) nothing i;
  c = product_bundle three_parties 1 1 (λ e p. poly 1 6 (λ k. 7) p) nothing i;
  u = λ e. gfp 5;
  v = λ e. gfp 9;
}

two_factors-IsTriple : IsTriple 1 1 two_factors (λ e. gfp 3) (λ e. gfp 6)
two_factors-IsTriple = record {
  a = λ e p. poly 1 2 (λ k. 4) p;
  b = λ e p. poly 1 3 (λ k. 5) p;
  c = λ e p. poly 1 6 (λ k. 7) p;
  u = λ e. gfp 5;
  v = λ e. gfp 9;
  a_poly = λ e he. poly-IsPoly 1 2 (λ k. 4);
  b_poly = λ e he. poly-IsPoly 1 3 (λ k. 5);
  c_poly = λ e he. poly-IsPoly 1 6 (λ k. 7);
  product = λ e he.
      poly-zero 1 6 (λ k. 7)
      ∙ gfp-* 2 3
      ∙ sym (ap₂ ◌⊗◌ (poly-zero 1 2 (λ k. 4)) (poly-zero 1 3 (λ k. 5)));
  x_value = λ e he.
      ap (◌⊖◌ (gfp 5)) (poly-zero 1 2 (λ k. 4)) ∙ sub_of_add (gfp 5) (gfp 2) (gfp 3) (gfp-+ 3 2);
  y_value = λ e he.
      ap (◌⊖◌ (gfp 9)) (poly-zero 1 3 (λ k. 5)) ∙ sub_of_add (gfp 9) (gfp 3) (gfp 6) (gfp-+ 6 3);
  a_share = λ i e he. refl;
  b_share = λ i e he. refl;
  c_share = λ i e he. refl;
  u_known = λ i e he. refl;
  v_known = λ i e he. refl;
}

affine-IsTriple_example :
    IsTriple 1 1 (λ i. x_times (gfp 7) (two_factors i)) (λ e. gfp 7 ⊗ gfp 3) (λ e. gfp 6)
    × IsTriple 1 1 (λ i. x_plus (gfp 7) (two_factors i)) (λ e. gfp 3 ⊕ gfp 7) (λ e. gfp 6)
    × IsTriple 1 1 (λ i. y_times (gfp 7) (two_factors i)) (λ e. gfp 3) (λ e. gfp 7 ⊗ gfp 6)
    × IsTriple 1 1 (λ i. y_plus (gfp 7) (two_factors i)) (λ e. gfp 3) (λ e. gfp 6 ⊕ gfp 7)
affine-IsTriple_example =
    affine-IsTriple 1 1 two_factors (λ e. gfp 3) (λ e. gfp 6) two_factors-IsTriple (gfp 7)
