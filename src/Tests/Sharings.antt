-- ===== src/Tests/Sharings.antt =====
-- The sharings of three parties.
use linux_copy.Common.{◌+◌, ◌≡◌, arith, refl, get_or}
use linux_copy.Gfp.{GfpScalar, gfp, ◌⊕◌}
use linux_copy.Poly.Sum.{dot}
use linux_copy.Poly.Eval.{eval, IsPoly}
use linux_copy.ShareBase.{
  get_vandermonde, get_reconstruction_vector, get_reconstruction_vector_with_secret,
}
use linux_copy.ShareBase.Vandermonde.{coefficients, get_vandermonde-eval}
use linux_copy.ShareBase.Reconstruct.{point_at, get_reconstruction_vector-eval}
use linux_copy.ShareBase.WithSecret.{skip, vector_with_secret-eval}
use linux_copy.Tests.{three_parties, three_parties-IsValid}

-- The polynomial `9 + 5 x`.
abbrev line : GfpScalar → GfpScalar
line x = eval 2 (coefficients (gfp 9) (λ k. gfp 5)) x

abbrev line-IsPoly : IsPoly 2 line
line-IsPoly = (coefficients (gfp 9) (λ k. gfp 5), λ x. refl)

get_vandermonde-eval_example :
    dot 1 (get_vandermonde 2) (λ k. gfp 5) ⊕ gfp 9
    ≡ eval 2 (coefficients (gfp 9) (λ k. gfp 5)) (gfp (2 + 1))
get_vandermonde-eval_example = get_vandermonde-eval 1 (gfp 9) (λ k. gfp 5) 2

get_reconstruction_vector-eval_example :
    dot 2 (get_reconstruction_vector three_parties (gfp 0) 1) (λ i. line (point_at three_parties i))
    ≡ line (gfp 0)
get_reconstruction_vector-eval_example =
    get_reconstruction_vector-eval three_parties three_parties-IsValid line 1 (gfp 0) (omega arith)
      line-IsPoly

vector_with_secret-eval_example :
    dot 2
      (λ k. get_or (get_reconstruction_vector_with_secret 1 (gfp 1) 1) k (gfp 0))
      (λ k. line (gfp (skip 1 k)))
    ≡ line (gfp 1)
vector_with_secret-eval_example =
    vector_with_secret-eval 1 1 (gfp 1) line (omega arith) (omega arith) line-IsPoly
