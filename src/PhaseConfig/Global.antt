-- ===== src/PhaseConfig/Global.antt =====
-- `get_global_communication`: every party computes the same total.
use linux_copy.Common.{
  ℕ, zero, suc, ◌+◌, ◌<◌, ◌≤◌, ◌≡◌, ◌≢◌, refl, ap, ◌∙◌, arith, ◌==◌, ==_ne, ==_iff, ℕ_discrete,
  if◌then◌else◌, List, [], ◌∷◌, length, get_or,
}
use linux_copy.PhaseConfig.{PhaseConfig, PhaseName, sent_in, global_loop, get_global_communication}

-- What the parties from number `i` on have sent.
unfoldable pub sent_by : ℕ → ℕ → (ℕ → ℕ) → ℕ
sent_by zero i sents = 0
sent_by (suc n) i sents = sents i + sent_by n (suc i) sents

-- What the parties other than `my_num` have sent.
sent_by_others : ℕ → ℕ → ℕ → (ℕ → ℕ) → ℕ
sent_by_others my_num zero i sents = 0
sent_by_others my_num (suc n) i sents =
    (if i == my_num then 0 else sents i) + sent_by_others my_num n (suc i) sents

others_past :
    (my_num n i : ℕ) (sents : ℕ → ℕ)
    → my_num < i
    → sent_by_others my_num n i sents ≡ sent_by n i sents
unfolding sent_by_others sent_by
others_past my_num zero i sents h = refl
others_past my_num (suc n) i sents h =
    rw (==_ne i my_num (omega arith))
      (ap (λ t. sents i + t) (others_past my_num n (suc i) sents (omega arith)))

others_and_own :
    (my_num n i : ℕ) (sents : ℕ → ℕ)
    → i ≤ my_num
    → my_num < i + n
    → sents my_num + sent_by_others my_num n i sents ≡ sent_by n i sents
unfolding sent_by_others sent_by
others_and_own my_num zero i sents h h' = absurd (omega arith)
others_and_own my_num (suc n) i sents h h' = elim (ℕ_discrete i my_num) [
  | yes e ↦
      rw ((==_iff i my_num).1 e)
        (omega (arith, others_past my_num n (suc i) sents (omega arith), ap sents e))
  | no ne ↦
      rw (==_ne i my_num ne)
        (omega (arith, others_and_own my_num n (suc i) sents (omega arith) (omega arith)))
]

global_loop-others :
    (my_num i global : ℕ) (os : List ℕ) (sents : ℕ → ℕ)
    → ((k : ℕ) → k < length os → i + k ≢ my_num → get_or os k 0 ≡ sents (i + k))
    → global_loop my_num i os global ≡ global + sent_by_others my_num (length os) i sents
unfolding global_loop sent_by_others
global_loop-others my_num i global [] sents h = omega arith
global_loop-others my_num i global (o ∷ os) sents h =
    global_loop-others my_num (suc i) _ os sents (λ k hk ne.
      h (suc k) (omega arith) (omega arith)
      ∙ ap sents {x = i + suc k} {y = suc i + k} (omega arith))
    ∙ elim (ℕ_discrete i my_num) [
      | yes e ↦ rw ((==_iff i my_num).1 e) (omega arith)
      | no ne ↦ rw (==_ne i my_num ne) (
          omega
            (arith, h 0 (omega arith) (omega arith), ap sents {x = i + 0} {y = i} (omega arith)))
    ]

-- When a party has received from each other party the number that this one has sent, what it
-- computes is the sum over all the parties, its own number included: the same for every party.
pub get_global_communication-sent_by :
    (phase : PhaseName) (self : PhaseConfig) (my_num : ℕ) (os : List ℕ) (sents : ℕ → ℕ)
    → my_num < length os
    → ((j : ℕ) → j < length os → j ≢ my_num → get_or os j 0 ≡ sents j)
    → sents my_num ≡ sent_in phase self
    → get_global_communication phase self my_num os ≡ sent_by (length os) 0 sents
unfolding get_global_communication
get_global_communication-sent_by phase self my_num os sents hm h own =
    global_loop-others my_num 0 (sent_in phase self) os sents
      (λ k hk ne. h k hk (omega arith) ∙ ap sents {x = k} {y = 0 + k} (omega arith))
    ∙ omega (arith, own, others_and_own my_num (length os) 0 sents (omega arith) (omega arith))
