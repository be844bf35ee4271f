-- ===== src/PhaseConfig.antt =====
-- Protocols/PhaseConfig.h and Protocols/PhaseConfig.cpp: the phases of a run and what each costs. The
-- timer and the statistics of the player are read as numbers; what the generators of RandomShare do
-- to the queues is not part of this state.
pub mod Invariant
pub mod Generate
pub mod Global
use linux_copy.Common.{
  ℕ, zero, suc, ◌+◌, ◌*◌, ◌-◌, ◌==◌, Bool, true, false, if◌then◌else◌, not, ◌&&◌, Option, none,
  some, List, [], ◌∷◌,
}
use linux_copy.Scalar.{fixed_precision}

-- The part of the ThreadPlayer (Networking/, not in the repository) that the phases use: the octets
-- sent, the rounds in `comm_stats` and the time on the timer since the last reset.
pub record PlayerStats : Type 0 where
  pub sent : ℕ
  pub comm_stats : ℕ
  pub timer : ℕ
  pub running : Bool

pub record PhaseConfig : Type 0 where
  pub offline_sent : ℕ
  pub offline_timer : ℕ
  pub offline_comm : ℕ
  pub online_sent : ℕ
  pub online_timer : ℕ
  pub online_comm : ℕ
  pub true_offline : Bool
  pub is_offline : Bool
  pub is_online : Bool
  pub cnt_random : ℕ
  pub cnt_random_bit : ℕ
  pub cnt_reduced_random : ℕ
  pub cnt_truncated_random : ℕ
  pub cnt_truncated_random_in_ml : ℕ
  pub cnt_reduced_truncated_random : ℕ
  pub cnt_reduced_truncated_in_ml_random : ℕ
  pub cnt_unbounded_mult_random : ℕ
  pub const_unbounded_size : ℕ
  pub cnt_rt_random_with_different_precision : ℕ
  -- `ShareBase::P`, which the phases share with the protocols.
  pub player : PlayerStats

-- The constructor, with the members' initialisers.
unfoldable pub new_phase_config : PlayerStats → PhaseConfig
new_phase_config player = record {
  offline_sent = 0;
  offline_timer = 0;
  offline_comm = 0;
  online_sent = 0;
  online_timer = 0;
  online_comm = 0;
  true_offline = false;
  is_offline = false;
  is_online = false;
  cnt_random = 0;
  cnt_random_bit = 0;
  cnt_reduced_random = 0;
  cnt_truncated_random = 0;
  cnt_truncated_random_in_ml = 0;
  cnt_reduced_truncated_random = 0;
  cnt_reduced_truncated_in_ml_random = 0;
  cnt_unbounded_mult_random = 0;
  const_unbounded_size = 0;
  cnt_rt_random_with_different_precision = 0;
  player = player;
}

-- `comm_stats.clear(); timer.reset(); sent = 0; timer.start();`
unfoldable pub restart : PlayerStats → PlayerStats
restart p = record { sent = 0; comm_stats = 0; timer = 0; running = true }

unfoldable pub start_offline : PhaseConfig → PhaseConfig
unfolding restart
start_offline self = record self { is_offline = true; player = restart self.player }

unfoldable pub end_offline : PhaseConfig → PhaseConfig
end_offline self = record self {
  is_offline = false;
  offline_timer = self.offline_timer + self.player.timer;
  offline_sent = self.offline_sent + self.player.sent;
  offline_comm = self.offline_comm + self.player.comm_stats;
  player = record self.player { running = false };
}

unfoldable pub clear_offline_status : PhaseConfig → PhaseConfig
clear_offline_status self = record self { offline_timer = 0; offline_sent = 0; offline_comm = 0 }

unfoldable pub start_online : PhaseConfig → PhaseConfig
unfolding restart
start_online self = record self { is_online = true; player = restart self.player }

unfoldable pub end_online : PhaseConfig → PhaseConfig
end_online self = record self {
  is_online = false;
  online_timer = self.online_timer + self.player.timer;
  online_comm = self.online_comm + self.player.comm_stats;
  online_sent = self.online_sent + self.player.sent;
  player = record self.player { running = false };
}

unfoldable pub clear_online_status : PhaseConfig → PhaseConfig
clear_online_status self = record self { online_timer = 0; online_comm = 0; online_sent = 0 }

-- `none` is a failed assertion.
unfoldable pub switch_to_offline : PhaseConfig → Option PhaseConfig
unfolding end_online start_offline
switch_to_offline self = if self.is_online then some (start_offline (end_online self)) else none

unfoldable pub switch_to_online : PhaseConfig → Option PhaseConfig
unfolding end_offline start_online
switch_to_online self = if self.is_offline then some (start_online (end_offline self)) else none

-- The words that `get_global_communication` knows; for any other it fails an assertion.
pub data PhaseName : Type 0 where
  online : PhaseName
  offline : PhaseName
  all : PhaseName

unfoldable pub sent_in : PhaseName → PhaseConfig → ℕ
sent_in online self = self.online_sent
sent_in offline self = self.offline_sent
sent_in all self = self.offline_sent + self.online_sent

-- The loop over the numbers that the other parties have sent, each a stream of 8 octets.
unfoldable pub global_loop : ℕ → ℕ → List ℕ → ℕ → ℕ
global_loop my_num i [] global = global
global_loop my_num i (o ∷ os) global =
    global_loop my_num (suc i) os (if i == my_num then global else global + o)

unfoldable pub get_global_communication : PhaseName → PhaseConfig → ℕ → List ℕ → ℕ
unfolding sent_in global_loop
get_global_communication phase self my_num os = global_loop my_num 0 os (sent_in phase self)
