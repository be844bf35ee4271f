-- ===== src/Stream/Scalars.antt =====
-- One scalar in a stream.
use linux_copy.Common.{◌≡◌, ◌∙◌, ap, arith, [], ◌∷◌, ◌++◌, length, take, get_or}
use linux_copy.Gfp.{GfpScalar, gfp}
use linux_copy.Stream.{OctetStream, pack, unpack}

module _ (s : OctetStream) where
  open s use {
    Octets, empty, contents, consume, get_length, contents-append, contents-empty, consume_front,
    get_length-contents,
  }

  contents-pack : (x : GfpScalar) → contents (pack s x) ≡ x ∷ []
  unfolding pack
  contents-pack x = contents-append empty (x ∷ []) ∙ ap (λ l. l ++ (x ∷ [])) contents-empty

  pub get_length-pack : (x : GfpScalar) → get_length (pack s x) ≡ 1
  get_length-pack x = get_length-contents (pack s x) ∙ ap length (contents-pack x)

  pub consume-pack : (x : GfpScalar) → (consume (pack s x) 1).0 ≡ x ∷ []
  consume-pack x =
      consume_front (pack s x) 1 (omega (arith, ap length (contents-pack x)))
      ∙ ap (take 1) (contents-pack x)

  pub get_length-empty : get_length empty ≡ 0
  get_length-empty = get_length-contents empty ∙ ap length contents-empty

  pub unpack-pack : (x : GfpScalar) → unpack s (pack s x) ≡ x
  unfolding unpack
  unpack-pack x = ap (λ l. get_or l 0 (gfp 0)) (consume-pack x)
