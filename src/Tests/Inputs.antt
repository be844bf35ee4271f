-- ===== src/Tests/Inputs.antt =====
-- The input of a secret by one of three parties.
use linux_copy.Common.{ℕ, ◌+◌, ◌<◌, ◌≡◌, refl, arith, inl, List}
use linux_copy.Gfp.{GfpScalar, gfp}
use linux_copy.Poly.Eval.{eval}
use linux_copy.Stream.{list_stream}
use linux_copy.Network.Run.{Event, Runs, Delivered}
use linux_copy.ShareBase.Vandermonde.{coefficients}
use linux_copy.Share.{Share, input_from_party}
use linux_copy.Share.Reveal.{party}
use linux_copy.Share.Input.{input_from_party_lem}
use linux_copy.Share.Input.Exists.{input_from_party-Runs}
use linux_copy.Tests.{three_parties}

abbrev secrets : ℕ → GfpScalar
secrets i = gfp (i + 7)

abbrev coeffs : ℕ → ℕ → GfpScalar
coeffs i k = gfp (i + k + 3)

abbrev old : ℕ → GfpScalar
old i = gfp 0

input_run :
    (traces : ℕ → List (Event (List GfpScalar))) × (results : ℕ → Share) × ((i : ℕ)
      → i < 3
      → Runs
          (List GfpScalar)
          Share
          (input_from_party list_stream
            (party three_parties i)
            (record { secret = secrets i; degree = 1; share = old i })
            1
            (coeffs i))
          (traces i)
          (results i))
    × Delivered 3 traces
input_run = input_from_party-Runs list_stream three_parties 1 1 secrets coeffs old (inl refl)

input_from_party-Runs_example :
    (traces : ℕ → List (Event (List GfpScalar))) × (results : ℕ → Share) × ((i : ℕ)
      → i < 3
      → Runs
          (List GfpScalar)
          Share
          (input_from_party list_stream
            (party three_parties i)
            (record { secret = secrets i; degree = 1; share = old i })
            1
            (coeffs i))
          (traces i)
          (results i))
    × Delivered 3 traces
input_from_party-Runs_example =
    input_from_party-Runs list_stream three_parties 1 1 secrets coeffs old (inl refl)

input_from_party_lem_example : input_run.1 2 ≡ record {
  secret = secrets 2;
  degree = 1;
  share = eval 2 (coefficients (secrets 1) (coeffs 1)) (gfp 3);
}
input_from_party_lem_example =
    input_from_party_lem list_stream three_parties 1 1 secrets coeffs old (inl refl) input_run.0
      input_run.1 input_run.2 input_run.3 (omega arith) 2 (omega arith)
