-- ===== src/ShareBundle/Reveal.antt =====
-- Protocols/ShareBundle.cpp, class ShareBundle: the reveals, in the build without `DISPERSE_PKING`,
-- and the dispersed versions that truncate. `update` is what the party that reconstructs does to the
-- secrets before it sends them.
pub mod Runs
pub mod Exists
use linux_copy.Common.{ℕ, ◌+◌, ◌*◌, ◌==◌, if◌then◌else◌, leb, ltb, ◌&&◌}
use linux_copy.Scalar.{truncate}
use linux_copy.Gfp.{GfpScalar, gfp}
use linux_copy.Stream.{OctetStream}
use linux_copy.Network.{Proc, ret, ◌>>=◌, ◌>>◌}
use linux_copy.ShareBase.{ShareBase}
use linux_copy.ShareBundle.{
  ShareBundle, set_secrets, reveal_to_pking, send_secrets, receive_secrets,
}
use linux_copy.ShareBundle.Block.{partition_rows, reveal_blocks_dispersed, share_blocks}

-- `gfpScalar::truncate` on the entry, as far as the precision of the entry says.
unfoldable pub truncate_secrets : (ℕ → ℕ) → ShareBundle → ShareBundle
unfolding set_secrets
truncate_secrets precision self =
    set_secrets (λ x. gfp (truncate (self.secrets x).value (precision x))) self

-- The same on the entries of one block of rows.
unfoldable pub truncate_block : (ℕ → ℕ) → ℕ × ℕ → ShareBundle → ShareBundle
unfolding set_secrets
truncate_block precision block self =
    set_secrets
      (λ x.
        if leb (block.0 * self.cols) x && ltb x ((block.0 + block.1) * self.cols)
        then gfp (truncate (self.secrets x).value (precision x))
        else self.secrets x)
      self

module _ (s : OctetStream) (c : ShareBase) where
  open s use {Octets}
  open c use {n_players, pking, my_num}

  unfoldable pub share_secrets : ShareBundle → (ShareBundle → ShareBundle) → Proc Octets ShareBundle
  unfolding send_secrets receive_secrets
  share_secrets self update =
      let king = do send_secrets s c (update self); ret (update self)
      in if my_num == pking then king else receive_secrets s c self pking

  unfoldable pub reveal : ShareBundle → (ℕ → ℕ → GfpScalar) → Proc Octets ShareBundle
  unfolding reveal_to_pking share_secrets
  reveal self fresh = reveal_to_pking s c self fresh >>= λ self'. share_secrets self' (λ b. b)

  -- `precision` is constant in the version with one precision for all.
  unfoldable pub reveal_truncate :
      ShareBundle → (ℕ → ℕ) → (ℕ → ℕ → GfpScalar) → Proc Octets ShareBundle
  unfolding reveal_to_pking share_secrets truncate_secrets
  reveal_truncate self precision fresh =
      reveal_to_pking s c self fresh >>= λ self'. share_secrets self' (truncate_secrets precision)

  unfoldable pub reveal_truncate_dispersed :
      ShareBundle → (ℕ → ℕ) → (ℕ → ℕ → GfpScalar) → Proc Octets ShareBundle
  unfolding reveal_blocks_dispersed share_blocks truncate_block partition_rows
  reveal_truncate_dispersed self precision fresh =
      reveal_blocks_dispersed s c self fresh >>= λ self'.
      share_blocks s c self' (truncate_block precision (partition_rows n_players self.rows my_num))
