-- ===== src/Recovery/LossTimer.antt =====
-- The loss timer over all packet spaces of a connection: what it is set to and what happens when it
-- fires (src/aioquic/quic/recovery.py).
use aioquic.Base.{
  ℕ, zero, suc, ◌+◌, ◌*◌, ◌^◌, Bool, not, ◌||◌, List, [], ◌∷◌, ◌++◌, Option, none, some, ltb,
  if◌then◌else◌,
}
use aioquic.Congestion.{QuicCongestionControl}
use aioquic.Recovery.Rtt.{get_probe_timeout}
use aioquic.Recovery.Space.{QuicPacketSpace, Report, QuicPacketRecovery, on_packets_lost}
use aioquic.Recovery.Acks.{detect_loss}

-- `_get_loss_space`: the loss time of the first space with the earliest one, and its index.
abbrev pub loss_space : List QuicPacketSpace → ℕ → Option (ℕ × ℕ) → Option (ℕ × ℕ)
loss_space [] index found = found
loss_space (space ∷ spaces) index found =
    loss_space spaces (index + 1) (better space.loss_time index found)
  where
    better : Option ℕ → ℕ → Option (ℕ × ℕ) → Option (ℕ × ℕ)
    better none index found = found
    better (some time) index none = some (time, index)
    better (some time) index (some (best, i)) =
        if ltb time best then some (time, index) else some (best, i)

abbrev total_eliciting : List QuicPacketSpace → ℕ
total_eliciting [] = 0
total_eliciting (space ∷ spaces) = space.ack_eliciting_in_flight + total_eliciting spaces

module _ (algorithm : QuicCongestionControl) where
  -- `reschedule_data`: the CRYPTO packets of each space are lost. The call of `_send_probe` that
  -- ends it belongs to the connection.
  abbrev pub reschedule_data :
      QuicPacketRecovery algorithm
      → List QuicPacketSpace
      → ℕ
      → QuicPacketRecovery algorithm × List QuicPacketSpace × List Report
  reschedule_data r [] now = (r, [], [])
  reschedule_data r (space ∷ spaces) now =
      let out = on_packets_lost algorithm r space now (λ p. p.is_crypto_packet) in
      let rest = reschedule_data out.recovery spaces now in
      (rest.0, out.space ∷ rest.1, out.reported ++ rest.2)

  abbrev pub detect_at :
      QuicPacketRecovery algorithm
      → List QuicPacketSpace
      → ℕ
      → ℕ
      → QuicPacketRecovery algorithm × List QuicPacketSpace × List Report
  detect_at r [] index now = (r, [], [])
  detect_at r (space ∷ spaces) zero now =
      let out = detect_loss algorithm r space now in
      (out.recovery, out.space ∷ spaces, out.reported)
  detect_at r (space ∷ spaces) (suc index) now =
      let rest = detect_at r spaces index now in (rest.0, space ∷ rest.1, rest.2)

  abbrev pub timeout_in :
      Option (ℕ × ℕ)
      → QuicPacketRecovery algorithm
      → List QuicPacketSpace
      → ℕ
      → QuicPacketRecovery algorithm × List QuicPacketSpace × List Report
  timeout_in (some (time, index)) r spaces now = detect_at r spaces index now
  timeout_in none r spaces now =
      reschedule_data (record r { pto_count = r.pto_count + 1 }) spaces now

  abbrev pub on_loss_detection_timeout :
      QuicPacketRecovery algorithm
      → List QuicPacketSpace
      → ℕ
      → QuicPacketRecovery algorithm × List QuicPacketSpace × List Report
  on_loss_detection_timeout r spaces now = timeout_in (loss_space spaces 0 none) r spaces now

  abbrev detection_time :
      Option (ℕ × ℕ) → QuicPacketRecovery algorithm → List QuicPacketSpace → Bool → Option ℕ
  detection_time (some (time, index)) r spaces validated = some time
  detection_time none r spaces validated =
      if not validated || ltb 0 (total_eliciting spaces)
      then some
          (r.time_of_last_sent_ack_eliciting_packet + get_probe_timeout r.rtt * 2 ^ r.pto_count)
      else none

  -- The flag is `peer_completed_address_validation`.
  abbrev pub get_loss_detection_time :
      QuicPacketRecovery algorithm → List QuicPacketSpace → Bool → Option ℕ
  get_loss_detection_time r spaces validated =
      detection_time (loss_space spaces 0 none) r spaces validated
