-- ===== src/Tests/Phases.antt =====
-- The phases, the extraction and the square root.
use linux_copy.Common.{
  ℕ, zero, suc, ◌<◌, ◌≤◌, ◌≡◌, ◌≢◌, ◌⊎◌, refl, arith, false, some, List, [], ◌∷◌, get_or,
}
use linux_copy.Scalar.{mid_pr, sqrt_exp}
use linux_copy.Gfp.{GfpScalar, gfp, neg, inverse}
use linux_copy.Gfp.Inverse.{gfp-injective}
use linux_copy.Gfp.Power.{power}
use linux_copy.Gfp.Sqrt.{sqrt, sqrt-range}
use linux_copy.RandomShare.Bit.{random_bit, random_bit-zero_or_one}
use linux_copy.PhaseConfig.{
  PhaseConfig, PlayerStats, new_phase_config, start_offline, end_offline, start_online,
  switch_to_online, offline, sent_in, get_global_communication,
}
use linux_copy.PhaseConfig.Invariant.{
  Reaches, started, sent_offline, sent_online, switched_to_online, transmit, IsAccounted,
  Reaches-IsAccounted,
}
use linux_copy.PhaseConfig.Global.{sent_by, get_global_communication-sent_by}

abbrev fresh_player : PlayerStats
fresh_player = record { sent = 7; comm_stats = 2; timer = 3; running = false }

abbrev first_phase : PhaseConfig
first_phase = transmit 40 (start_offline (new_phase_config fresh_player))

abbrev second_phase : PhaseConfig
second_phase = transmit 5 (start_online (end_offline first_phase))

second_phase-Reaches : Reaches fresh_player 40 5 second_phase
unfolding start_offline new_phase_config switch_to_online start_online end_offline
second_phase-Reaches = sent_online 5 (switched_to_online (sent_offline 40 started refl) refl) refl

Reaches-IsAccounted_example : IsAccounted 40 5 second_phase
Reaches-IsAccounted_example =
    Reaches-IsAccounted fresh_player 40 5 second_phase second_phase-Reaches

abbrev counted : PhaseConfig
counted = record (new_phase_config fresh_player) {
  cnt_random = 5;
  cnt_unbounded_mult_random = 24;
  const_unbounded_size = 8;
}

abbrev received : List ℕ
received = 3 ∷ 9 ∷ 5 ∷ []

abbrev all_sent : List ℕ
all_sent = 3 ∷ 0 ∷ 5 ∷ []

get_global_communication-sent_by_example :
    get_global_communication offline (new_phase_config fresh_player) 1 received
    ≡ sent_by 3 0 (λ j. get_or all_sent j 0)
get_global_communication-sent_by_example =
    get_global_communication-sent_by offline (new_phase_config fresh_player) 1 received
      (λ j. get_or all_sent j 0) (omega arith) others (unfold sent_in new_phase_config in refl)
  where
    others : (j : ℕ) → j < 3 → j ≢ 1 → get_or received j 0 ≡ get_or all_sent j 0
    others zero h ne = refl
    others (suc zero) h ne = absurd (ne refl)
    others (suc (suc zero)) h ne = refl
    others (suc (suc (suc j))) h ne = refl

sqrt-range_example :
    (r : GfpScalar) × (sqrt (gfp 4) ≡ some r)
    × (1 ≤ r.value)
    × (r.value < mid_pr)
    × ((r ≡ power (gfp 4) sqrt_exp) ⊎ (r ≡ neg (power (gfp 4) sqrt_exp)))
sqrt-range_example =
    sqrt-range (gfp 4) (λ e. (omega (arith, gfp-injective 4 0 (omega arith) (omega arith) e)))

random_bit-zero_or_one_example :
    (random_bit (gfp 5) (inverse (gfp 5)) ≡ gfp 0) ⊎ (random_bit (gfp 5) (inverse (gfp 5)) ≡ gfp 1)
random_bit-zero_or_one_example =
    random_bit-zero_or_one (gfp 5) (gfp 5)
      (λ e. (omega (arith, gfp-injective 5 0 (omega arith) (omega arith) e))) refl
