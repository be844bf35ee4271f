-- ===== src/PhaseConfig/Invariant.antt =====
-- The phases in sequence: what has been sent is accounted to the phase in which it was sent.
use linux_copy.Common.{
  ℕ, ◌+◌, ◌≡◌, refl, ap, ◌∙◌, sym, arith, true, false, not, if◌then◌else◌, none, some, Bool-cases,
  false-ne-true, inl, inr, subst,
}
use mathlib.Core.Option.{none-ne-some, some-injective}
use linux_copy.PhaseConfig.{
  PhaseConfig, PlayerStats, new_phase_config, restart, start_offline, end_offline, start_online,
  end_online, switch_to_offline, switch_to_online,
}

-- The protocols send `octets` more.
abbrev pub transmit : ℕ → PhaseConfig → PhaseConfig
transmit octets self = record self {
  player = record self.player { sent = self.player.sent + octets };
}

-- The states that a run goes through, which starts offline and switches, with the number of octets
-- that were sent in the offline phases, and in the online phases.
pub data Reaches (player : PlayerStats) : ℕ → ℕ → PhaseConfig → Type 0 where
  started : Reaches player 0 0 (start_offline (new_phase_config player))
  sent_offline :
      {off on : ℕ} {self : PhaseConfig} (octets : ℕ)
      → Reaches player off on self
      → self.is_offline ≡ true
      → Reaches player (off + octets) on (transmit octets self)
  sent_online :
      {off on : ℕ} {self : PhaseConfig} (octets : ℕ)
      → Reaches player off on self
      → self.is_online ≡ true
      → Reaches player off (on + octets) (transmit octets self)
  switched_to_online :
      {off on : ℕ} {self next : PhaseConfig}
      → Reaches player off on self
      → switch_to_online self ≡ some next
      → Reaches player off on next
  switched_to_offline :
      {off on : ℕ} {self next : PhaseConfig}
      → Reaches player off on self
      → switch_to_offline self ≡ some next
      → Reaches player off on next

-- Exactly one phase is on, and the octets of both are accounted for.
abbrev pub IsAccounted : ℕ → ℕ → PhaseConfig → Type 0
IsAccounted off on self =
    (self.is_online ≡ not self.is_offline)
    × (self.offline_sent + (if self.is_offline then self.player.sent else 0) ≡ off)
    × (self.online_sent + (if self.is_online then self.player.sent else 0) ≡ on)

only_offline :
    (self : PhaseConfig)
    → self.is_online ≡ not self.is_offline
    → self.is_offline ≡ true
    → self.is_online ≡ false
only_offline self one e = one ∙ ap not e

only_online :
    (self : PhaseConfig)
    → self.is_online ≡ not self.is_offline
    → self.is_online ≡ true
    → self.is_offline ≡ false
only_online self one e = elim (Bool-cases self.is_offline) [
  | inl flag ↦ absurd (false-ne-true (sym (only_offline self one flag) ∙ e))
  | inr flag ↦ flag
]

accepted_to_online :
    (self : PhaseConfig)
    → self.is_offline ≡ true
    → switch_to_online self ≡ some (start_online (end_offline self))
unfolding switch_to_online
accepted_to_online self e = rw e

refused_to_online : (self : PhaseConfig) → self.is_offline ≡ false → switch_to_online self ≡ none
unfolding switch_to_online
refused_to_online self e = rw e

moved_to_online :
    (off on : ℕ) (self : PhaseConfig)
    → IsAccounted off on self
    → self.is_offline ≡ true
    → IsAccounted off on (start_online (end_offline self))
unfolding end_offline start_online restart
moved_to_online off on self (one, off_sent, on_sent) e =
    let off' =
      subst (λ b. self.offline_sent + (if b then self.player.sent else 0) ≡ off) e off_sent in
    let on' =
      subst (λ b. self.online_sent + (if b then self.player.sent else 0) ≡ on)
        (only_offline self one e) on_sent in
    (refl, omega (arith, off'), omega (arith, on'))

to_online-IsAccounted :
    (off on : ℕ) (self next : PhaseConfig)
    → IsAccounted off on self
    → switch_to_online self ≡ some next
    → IsAccounted off on next
to_online-IsAccounted off on self next h e = elim (Bool-cases self.is_offline) [
  | inl flag ↦
      subst (IsAccounted off on) (some-injective _ next (sym (accepted_to_online self flag) ∙ e))
        (moved_to_online off on self h flag)
  | inr flag ↦ absurd (none-ne-some next (sym (refused_to_online self flag) ∙ e))
]

accepted_to_offline :
    (self : PhaseConfig)
    → self.is_online ≡ true
    → switch_to_offline self ≡ some (start_offline (end_online self))
unfolding switch_to_offline
accepted_to_offline self e = rw e

refused_to_offline : (self : PhaseConfig) → self.is_online ≡ false → switch_to_offline self ≡ none
unfolding switch_to_offline
refused_to_offline self e = rw e

moved_to_offline :
    (off on : ℕ) (self : PhaseConfig)
    → IsAccounted off on self
    → self.is_online ≡ true
    → IsAccounted off on (start_offline (end_online self))
unfolding end_online start_offline restart
moved_to_offline off on self (one, off_sent, on_sent) e =
    let on' = subst (λ b. self.online_sent + (if b then self.player.sent else 0) ≡ on) e on_sent in
    let off' =
      subst (λ b. self.offline_sent + (if b then self.player.sent else 0) ≡ off)
        (only_online self one e) off_sent in
    (refl, omega (arith, off'), omega (arith, on'))

to_offline-IsAccounted :
    (off on : ℕ) (self next : PhaseConfig)
    → IsAccounted off on self
    → switch_to_offline self ≡ some next
    → IsAccounted off on next
to_offline-IsAccounted off on self next h e = elim (Bool-cases self.is_online) [
  | inl flag ↦
      subst (IsAccounted off on) (some-injective _ next (sym (accepted_to_offline self flag) ∙ e))
        (moved_to_offline off on self h flag)
  | inr flag ↦ absurd (none-ne-some next (sym (refused_to_offline self flag) ∙ e))
]

transmit_offline :
    (off on octets : ℕ) (self : PhaseConfig)
    → IsAccounted off on self
    → self.is_offline ≡ true
    → IsAccounted (off + octets) on (transmit octets self)
transmit_offline off on octets self (one, off_sent, on_sent) e =
    let off' =
      subst (λ b. self.offline_sent + (if b then self.player.sent else 0) ≡ off) e off_sent in
    let on' =
      subst (λ b. self.online_sent + (if b then self.player.sent else 0) ≡ on)
        (only_offline self one e) on_sent in
    (one, rw e (omega (arith, off')), rw (only_offline self one e) (omega (arith, on')))

transmit_online :
    (off on octets : ℕ) (self : PhaseConfig)
    → IsAccounted off on self
    → self.is_online ≡ true
    → IsAccounted off (on + octets) (transmit octets self)
transmit_online off on octets self (one, off_sent, on_sent) e =
    let on' = subst (λ b. self.online_sent + (if b then self.player.sent else 0) ≡ on) e on_sent in
    let off' =
      subst (λ b. self.offline_sent + (if b then self.player.sent else 0) ≡ off)
        (only_online self one e) off_sent in
    (one, rw (only_online self one e) (omega (arith, off')), rw e (omega (arith, on')))

-- In every state that a run reaches, which starts offline, sends and switches, exactly one of the
-- phases is on, and the octets recorded for each phase, with those that the player has sent since
-- the switch to the phase that is on, are the ones sent in that phase.
pub Reaches-IsAccounted :
    (player : PlayerStats) (off on : ℕ) (self : PhaseConfig)
    → Reaches player off on self
    → IsAccounted off on self
unfolding start_offline new_phase_config restart
Reaches-IsAccounted player off on self started = (refl, refl, refl)
Reaches-IsAccounted player off on self (sent_offline {off = before} {self = previous} octets r e) =
    transmit_offline before on octets previous (Reaches-IsAccounted player before on previous r) e
Reaches-IsAccounted player off on self (sent_online {on = before} {self = previous} octets r e) =
    transmit_online off before octets previous (Reaches-IsAccounted player off before previous r) e
Reaches-IsAccounted player off on self (switched_to_online {self = previous} r e) =
    to_online-IsAccounted off on previous self (Reaches-IsAccounted player off on previous r) e
Reaches-IsAccounted player off on self (switched_to_offline {self = previous} r e) =
    to_offline-IsAccounted off on previous self (Reaches-IsAccounted player off on previous r) e
