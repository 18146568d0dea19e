-- ===== src/Parameter/Traffic/Tests.antt =====
-- A device that is started anew, two samples of the same time, and counters that rise.
use helix_acs.Prelude.{ℕ, ◌+◌, ◌*◌, ◌≡◌, refl, Bool, true, false, List, [], ◌∷◌, all, map, arith}
use helix_acs.Parameter.Traffic.{TrafficSample, traffic_samples_to_rate_points}
use helix_acs.Parameter.Traffic.Conserved.{total, traffic_samples_to_rate_points-total}

abbrev sample : ℕ → ℕ → ℕ → TrafficSample
sample at sent received = record { recorded_at = at; bytes_sent = sent; bytes_received = received }

restarted :
    map {B = ℕ × ℕ × Bool}
      (λ p. (p.until, p.tx_bits, p.valid))
      (traffic_samples_to_rate_points
        (sample 0 10000 20000 ∷ sample 30 100 50 ∷ sample 30 200 60 ∷ sample 40 300 70 ∷ []))
    ≡ (30, 0, false) ∷ (40, 800, true) ∷ []
unfolding traffic_samples_to_rate_points
restarted = refl

abbrev rising : List TrafficSample
rising = sample 30 4000 11000 ∷ sample 60 4000 12000 ∷ []

traffic_samples_to_rate_points-total_example :
    (all (λ p. p.valid) (traffic_samples_to_rate_points (sample 0 1000 5000 ∷ rising)) ≡ true)
    × (0 + total (λ p. p.duration) (traffic_samples_to_rate_points (sample 0 1000 5000 ∷ rising))
        ≡ 60)
    × (1000 * 8
          + total (λ p. p.tx_bits) (traffic_samples_to_rate_points (sample 0 1000 5000 ∷ rising))
        ≡ 4000 * 8)
    × (5000 * 8
          + total (λ p. p.rx_bits) (traffic_samples_to_rate_points (sample 0 1000 5000 ∷ rising))
        ≡ 12000 * 8)
traffic_samples_to_rate_points-total_example =
    traffic_samples_to_rate_points-total (sample 0 1000 5000) rising
      (omega arith, omega arith, omega arith, (omega arith, omega arith, omega arith, tt))
