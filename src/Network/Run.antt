-- ===== src/Network/Run.antt =====
-- What a program does: the trace of its messages, in order.
use linux_copy.Common.{ℕ, ◌==◌, if◌then◌else◌, List, [], ◌∷◌, ◌≡◌, ◌<◌}
use linux_copy.Network.{Proc, ret, send, receive}

pub data Event (M : Type 0) : Type 0 where
  out : ℕ → M → Event M
  inc : ℕ → M → Event M

-- `Runs p trace a`: the program runs to its end over these messages and returns `a`.
pub data Runs (M A : Type 0) : Proc M A → List (Event M) → A → Type 0 where
  done : {a : A} → Runs M A (ret a) [] a
  sends :
      {j : ℕ} {m : M} {p : Proc M A} {trace : List (Event M)} {a : A}
      → Runs M A p trace a
      → Runs M A (send j m p) (out j m ∷ trace) a
  receives :
      {j : ℕ} {m : M} {k : M → Proc M A} {trace : List (Event M)} {a : A}
      → Runs M A (k m) trace a
      → Runs M A (receive j k) (inc j m ∷ trace) a

module _ {M : Type 0} where
  -- The messages to, and from, one party.
  abbrev pub sent_to : ℕ → List (Event M) → List M
  sent_to j [] = []
  sent_to j (out k m ∷ trace) = if k == j then m ∷ sent_to j trace else sent_to j trace
  sent_to j (inc k m ∷ trace) = sent_to j trace

  abbrev pub received_from : ℕ → List (Event M) → List M
  received_from j [] = []
  received_from j (out k m ∷ trace) = received_from j trace
  received_from j (inc k m ∷ trace) =
      if k == j then m ∷ received_from j trace else received_from j trace

  -- Each party has received from each other what that one has sent to it.
  abbrev pub Delivered : ℕ → (ℕ → List (Event M)) → Type 0
  Delivered n traces = (i j : ℕ) → i < n → j < n → received_from j (traces i) ≡ sent_to i (traces j)
