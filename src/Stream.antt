-- ===== src/Stream.antt =====
-- The interface of Tools/octetStream.h, which is not in the repository: a first-in, first-out buffer
-- of octets. A field element is appended and consumed as its `sizeof(gfpScalar)` octets, so that the
-- buffer is read as the list of the elements in it.
pub mod Scalars
use linux_copy.Common.{ℕ, ◌≤◌, ◌≡◌, refl, List, [], ◌∷◌, ◌++◌, get_or, length, take, drop}
use linux_copy.Gfp.{GfpScalar, gfp}

pub record OctetStream : Type 1 where
  pub Octets : Type 0
  pub empty : Octets
  pub append : Octets → List GfpScalar → Octets
  -- The elements that were read, and the buffer without them.
  pub consume : Octets → ℕ → List GfpScalar × Octets
  pub get_length : Octets → ℕ
  -- What is in the buffer, for the laws.
  pub contents : Octets → List GfpScalar
  pub contents-empty : contents empty ≡ []
  pub contents-append :
      (o : Octets) (xs : List GfpScalar) → contents (append o xs) ≡ contents o ++ xs
  pub consume_front :
      (o : Octets) (n : ℕ) → n ≤ length (contents o) → (consume o n).0 ≡ take n (contents o)
  pub consume_rest :
      (o : Octets) (n : ℕ)
      → n ≤ length (contents o)
      → contents (consume o n).1 ≡ drop n (contents o)
  pub get_length-contents : (o : Octets) → get_length o ≡ length (contents o)

module _ (s : OctetStream) where
  open s use {Octets, empty, append, consume}

  -- `gfpScalar::pack` into a new stream, and `gfpScalar::unpack`.
  unfoldable pub pack : GfpScalar → Octets
  pack x = append empty (x ∷ [])

  unfoldable pub unpack : Octets → GfpScalar
  unpack o = get_or (consume o 1).0 0 (gfp 0)

-- Lists meet the interface.
abbrev pub list_stream : OctetStream
list_stream = record {
  Octets = List GfpScalar;
  empty = [];
  append = ◌++◌;
  consume = λ o n. (take n o, drop n o);
  get_length = length;
  contents = λ o. o;
  contents-empty = refl;
  contents-append = λ o xs. refl;
  consume_front = λ o n h. refl;
  consume_rest = λ o n h. refl;
  get_length-contents = λ o. refl;
}
