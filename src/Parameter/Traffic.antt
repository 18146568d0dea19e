-- ===== src/Parameter/Traffic.antt =====
-- internal/parameter/traffic.go. Times are nanoseconds and counters are not negative. A rate is kept as its bits
-- over the duration of its point, where the code divides with rounding.
mod Conserved
mod Tests
use helix_acs.Prelude.{ℕ, ◌+◌, ◌-◌, ◌*◌, Bool, true, false, ◌&&◌, List, [], ◌∷◌, if◌then◌else◌, leb}

pub record TrafficSample : Type 0 where
  pub recorded_at : ℕ
  pub bytes_sent : ℕ
  pub bytes_received : ℕ

pub record TrafficRatePoint : Type 0 where
  pub until : ℕ
  pub duration : ℕ
  pub rx_bits : ℕ
  pub tx_bits : ℕ
  pub valid : Bool

unfoldable pub rate_point : TrafficSample → TrafficSample → TrafficRatePoint
rate_point prev cur =
    let valid = leb prev.bytes_sent cur.bytes_sent && leb prev.bytes_received cur.bytes_received in
    record {
      until = cur.recorded_at;
      duration = cur.recorded_at - prev.recorded_at;
      rx_bits = if valid then (cur.bytes_received - prev.bytes_received) * 8 else 0;
      tx_bits = if valid then (cur.bytes_sent - prev.bytes_sent) * 8 else 0;
      valid = valid;
    }

unfoldable pub rate_points_from : TrafficSample → List TrafficSample → List TrafficRatePoint
unfolding rate_point
rate_points_from prev [] = []
rate_points_from prev (cur ∷ samples) =
    let later = rate_points_from cur samples in
    if leb cur.recorded_at prev.recorded_at then later else rate_point prev cur ∷ later

unfoldable pub traffic_samples_to_rate_points : List TrafficSample → List TrafficRatePoint
unfolding rate_points_from
traffic_samples_to_rate_points [] = []
traffic_samples_to_rate_points (first ∷ samples) = rate_points_from first samples
