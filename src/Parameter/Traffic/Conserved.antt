-- ===== src/Parameter/Traffic/Conserved.antt =====
-- The rates of rising counters add up to what the counters say.
use helix_acs.Prelude.{
  ℕ, ◌+◌, ◌*◌, ◌≤◌, ◌<◌, ◌≡◌, refl, true, false, List, [], ◌∷◌, all, leb, arith,
}
use helix_acs.Parameter.Traffic.{
  TrafficSample, TrafficRatePoint, rate_point, rate_points_from, traffic_samples_to_rate_points,
}

-- Each sample is later than the one before, and its counters are not smaller.
abbrev pub AreRising : TrafficSample → List TrafficSample → Type 0
AreRising prev [] = Unit
AreRising prev (cur ∷ samples) =
    (prev.recorded_at < cur.recorded_at)
    × (prev.bytes_sent ≤ cur.bytes_sent)
    × (prev.bytes_received ≤ cur.bytes_received)
    × AreRising cur samples

abbrev pub last : TrafficSample → List TrafficSample → TrafficSample
last prev [] = prev
last prev (cur ∷ samples) = last cur samples

abbrev pub total : (TrafficRatePoint → ℕ) → List TrafficRatePoint → ℕ
total f [] = 0
total f (p ∷ points) = f p + total f points

-- Of samples that are taken one after the other and whose counters never fall, every point is valid, and the
-- durations and the bits of the points add up to the time and to eight times the bytes between the first sample
-- and the last.
pub traffic_samples_to_rate_points-total :
    (first : TrafficSample) (samples : List TrafficSample)
    → AreRising first samples
    → (all (λ p. p.valid) (traffic_samples_to_rate_points (first ∷ samples)) ≡ true)
      × (first.recorded_at
            + total (λ p. p.duration) (traffic_samples_to_rate_points (first ∷ samples))
          ≡ (last first samples).recorded_at)
      × (first.bytes_sent * 8
            + total (λ p. p.tx_bits) (traffic_samples_to_rate_points (first ∷ samples))
          ≡ (last first samples).bytes_sent * 8)
      × (first.bytes_received * 8
            + total (λ p. p.rx_bits) (traffic_samples_to_rate_points (first ∷ samples))
          ≡ (last first samples).bytes_received * 8)
unfolding traffic_samples_to_rate_points rate_points_from rate_point
traffic_samples_to_rate_points-total first [] _ = (refl, omega arith, omega arith, omega arith)
traffic_samples_to_rate_points-total first (cur ∷ samples) (later, sent, received, rest) =
    let (v, d, t, r) = traffic_samples_to_rate_points-total cur samples rest in
    let time : leb cur.recorded_at first.recorded_at ≡ false = ground arith in
    let s : leb first.bytes_sent cur.bytes_sent ≡ true = ground arith in
    let g : leb first.bytes_received cur.bytes_received ≡ true = ground arith in
    rw (time, s, g) (v, omega arith, omega arith, omega arith)
