-- ===== src/Privacy/Balancer/Tests.antt =====
-- privacy/model/loadbalancer.go: two backends of which the first fails.
use ao_eo.Base.{
  ℕ, zero, suc, ◌+◌, ◌*◌, ◌/◌, exchange_sort, ◌<◌, ◌≡◌, refl, true, false, not, [], ◌∷◌, none,
  codes,
}
use ao_eo.Privacy.Endpoints.{all_blank}
use ao_eo.Privacy.Balancer.{
  Answer, answered, failed, Balancer, Sidecars, round_robin, random, detected, new_balancer,
  balancer_for, detect, detect_batch, health_check,
}
use ao_eo.Privacy.Balancer.Failover.{is_detected, detect-health_check}
use ao_eo.Privacy.Balancer.Checks.{closes, new_balancer-closes}

abbrev first_fails : {A : Type 0} → A → ℕ → ℕ → Answer A × ℕ
first_fails a zero w = (failed "refused", w + 5)
first_fails a (suc i) w = (answered a, w + 7)

abbrev sidecars : Sidecars ℕ
sidecars = record {
  detect = λ i t. first_fails [] i;
  detect_batch = λ i ts. first_fails [] i;
  health_check = λ i w. ((true, none), w);
  now = λ w. w;
  intn = λ n w. (0, w);
  ewma = λ old d. (old * 7 + d * 3) / 10;
}

abbrev two : Balancer
two = balancer_for (codes "a" ∷ codes "b" ∷ []) random 10 false

intn_lt : (n w : ℕ) → 0 < n → (sidecars.intn n w).0 < n
intn_lt n w h = h

detect-health_check_example :
    (is_detected (detect sidecars "t" two 0).0
      ≡ health_check (detect sidecars "t" two 0).1.0.backends)
    × (is_detected (detect_batch sidecars ("t" ∷ []) two 0).0
        ≡ health_check (detect_batch sidecars ("t" ∷ []) two 0).1.0.backends)
detect-health_check_example = detect-health_check sidecars intn_lt "t" [] two 0

-- The second backend answers.
detect_fails_over : (detect sidecars "t" two 0).0 ≡ detected []
unfolding detect balancer_for exchange_sort
detect_fails_over = refl

new_balancer-closes_example :
    closes (new_balancer (codes " ,") round_robin 10 false) ≡ not (all_blank (codes " ,"))
new_balancer-closes_example = new_balancer-closes (codes " ,") round_robin 10 false

-- The first Close of a client without endpoints panics.
close_panics : closes (new_balancer (codes " ,") round_robin 10 false) ≡ false
unfolding closes new_balancer
close_panics = refl
