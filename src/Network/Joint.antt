-- ===== src/Network/Joint.antt =====
-- The programs of all the parties, run together: a run of each, over channels that deliver to each
-- what was sent to it. Joint runs are put together as the programs are.
use mathlib.Core.List.{append-nil}
use linux_copy.Common.{ℕ, ◌<◌, ◌≡◌, refl, ap, ap₂, ◌∙◌, sym, List, [], ◌++◌, subst}
use linux_copy.Network.{Proc, ret, ◌>>=◌}
use linux_copy.Network.Run.{Event, Runs, done, sent_to, received_from, Delivered}
use linux_copy.Network.Inversion.{Runs-bind, run_as, sent_to-append, received_from-append}

-- The parties below `n` run `program` to its end and end with `results`.
pub record Joint (M A : Type 0) (n : ℕ) (program : ℕ → Proc M A) (results : ℕ → A) : Type 0 where
  pub traces : ℕ → List (Event M)
  pub runs : (i : ℕ) → i < n → Runs M A (program i) (traces i) (results i)
  pub delivered : Delivered n traces

module _ {M : Type 0} where
  pub Joint-ret : {A : Type 0} (n : ℕ) (a : ℕ → A) → Joint M A n (λ i. ret (a i)) a
  Joint-ret n a = record { traces = λ i. []; runs = λ i h. done; delivered = λ i j hi hj. refl }

  pub Joint-bind :
      {A B : Type 0} (n : ℕ) (p : ℕ → Proc M A) (k : ℕ → A → Proc M B) (a : ℕ → A) (b : ℕ → B)
      → Joint M A n p a
      → Joint M B n (λ i. k i (a i)) b
      → Joint M B n (λ i. p i >>= k i) b
  Joint-bind n p k a b first second = record {
    traces = λ i. first.traces i ++ second.traces i;
    runs = λ i h. Runs-bind (k i) (first.runs i h) (second.runs i h);
    delivered = λ i j hi hj.
        received_from-append j (first.traces i) (second.traces i)
        ∙ ap₂ ◌++◌ (first.delivered i j hi hj) (second.delivered i j hi hj)
        ∙ sym (sent_to-append i (first.traces j) (second.traces j));
  }

  pub Joint-as :
      {A : Type 0} (n : ℕ) (p q : ℕ → Proc M A) (a : ℕ → A)
      → ((i : ℕ) → i < n → p i ≡ q i)
      → Joint M A n p a
      → Joint M A n q a
  Joint-as n p q a e j = record {
    traces = j.traces;
    runs = λ i h. run_as (e i h) (j.runs i h);
    delivered = j.delivered;
  }

  pub Joint-results :
      {A : Type 0} (n : ℕ) (p : ℕ → Proc M A) (a b : ℕ → A)
      → ((i : ℕ) → i < n → a i ≡ b i)
      → Joint M A n p a
      → Joint M A n p b
  Joint-results {A = A} n p a b e j = record {
    traces = j.traces;
    runs = λ i h. subst (λ x. Runs M A (p i) (j.traces i) x) (e i h) (j.runs i h);
    delivered = j.delivered;
  }

  -- A run, and what follows it without a message.
  pub Runs-then :
      {A B : Type 0} {p : Proc M A} (k : A → Proc M B) {trace : List (Event M)} {a : A} {b : B}
      → k a ≡ ret b
      → Runs M A p trace a
      → Runs M B (p >>= k) trace b
  Runs-then {B = B} {p = p} k {trace = trace} {b = b} e r =
      subst (λ t. Runs M B (p >>= k) t b) (append-nil trace) (Runs-bind k r (run_as (sym e) done))

  -- First all send, then all receive: what each sends to another is what that one receives from it.
  pub Joint-exchange :
      {A B : Type 0} (n : ℕ) (p : ℕ → Proc M A) (k : ℕ → A → Proc M B) (a : ℕ → A) (b : ℕ → B)
      (sends receives : ℕ → List (Event M))
      → ((i : ℕ) → i < n → Runs M A (p i) (sends i) (a i))
      → ((i : ℕ) → i < n → Runs M B (k i (a i)) (receives i) (b i))
      → ((i j : ℕ) → received_from j (sends i) ≡ [])
      → ((i j : ℕ) → sent_to j (receives i) ≡ [])
      → ((i j : ℕ) → i < n → j < n → received_from j (receives i) ≡ sent_to i (sends j))
      → Joint M B n (λ i. p i >>= k i) b
  Joint-exchange n p k a b sends receives sent received only_sends only_receives same = record {
    traces = λ i. sends i ++ receives i;
    runs = λ i h. Runs-bind (k i) (sent i h) (received i h);
    delivered = λ i j hi hj.
        received_from-append j (sends i) (receives i)
        ∙ ap (λ l. l ++ received_from j (receives i)) (only_sends i j)
        ∙ same i j hi hj
        ∙ sym (
            sent_to-append i (sends j) (receives j)
            ∙ ap (λ l. sent_to i (sends j) ++ l) (only_receives j i)
            ∙ append-nil (sent_to i (sends j)));
  }
