-- ===== src/Network.antt =====
-- The interface of Networking/Player.h, which is not in the repository: a party's program sends
-- messages to other parties and receives from them, each pair of parties over a reliable first-in,
-- first-out channel. A program is the tree of its messages; `abort` is a failed assertion.
pub mod Run
pub mod Inversion
pub mod Distribute
pub mod Joint
pub mod Arrivals
use linux_copy.Common.{
  ℕ, zero, suc, ◌+◌, ◌==◌, if◌then◌else◌, Bool, List, [], ◌∷◌, ◌++◌, ◌≡◌, refl, Option, none, some,
}

pub data Proc (M : Type 0) (A : Type 0) : Type 0 where
  ret : A → Proc M A
  send : ℕ → M → Proc M A → Proc M A
  receive : ℕ → (M → Proc M A) → Proc M A
  abort : Proc M A

module _ {M : Type 0} where
  infixl 5 ◌>>=◌ ◌>>◌
  abbrev pub ◌>>=◌ : {A B : Type 0} → Proc M A → (A → Proc M B) → Proc M B
  ret a >>= f = f a
  send j m p >>= f = send j m (p >>= f)
  receive j k >>= f = receive j (λ m. k m >>= f)
  abort >>= f = abort

  abbrev pub ◌>>◌ : {A B : Type 0} → Proc M A → Proc M B → Proc M B
  p >> q = p >>= λ _. q

  -- `P->send_to(j, o)`, `P->receive_player(j, o)` and an assertion.
  abbrev pub send_to : ℕ → M → Proc M (Unit {0})
  send_to j m = send j m (ret tt)

  abbrev pub receive_player : ℕ → Proc M M
  receive_player j = receive j ret

  abbrev pub check : Bool → Proc M (Unit {0})
  check b = if b then ret tt else abort

  abbrev pub or_abort : {A : Type 0} → Option A → Proc M A
  or_abort none = abort
  or_abort (some a) = ret a

  -- `P->send_respective(os)`: the stream at each place to the party of that number, but its own.
  unfoldable pub send_from : ℕ → ℕ → List M → Proc M (Unit {0})
  send_from me j [] = ret tt
  send_from me j (o ∷ os) =
      let rest = send_from me (suc j) os in if j == me then rest else send j o rest

  -- `P->send_all(o)`: one message to each of the other `n` parties, from number `j` on.
  unfoldable pub send_each : ℕ → ℕ → ℕ → M → Proc M (Unit {0})
  send_each me j zero o = ret tt
  send_each me j (suc n) o =
      let rest = send_each me (suc j) n o in if j == me then rest else send j o rest

  -- `P->send_respective(start, n, os)`: the streams in order to the parties from number `start` on,
  -- counted round by `wrap`, but its own.
  unfoldable pub send_window : ℕ → (ℕ → ℕ) → ℕ → List M → Proc M (Unit {0})
  send_window me wrap j [] = ret tt
  send_window me wrap j (o ∷ os) =
      let rest = send_window me wrap (suc j) os in
      if wrap j == me then rest else send (wrap j) o rest
