-- ===== src/Privacy/Balancer/Failover.antt =====
-- privacy/model/loadbalancer.go: what Detect and DetectBatch leave behind when they fail over.
use mathlib.Core.List.{Mem, mem-cons, not-mem-nil}
use mathlib.Core.Logic.Or
use mathlib.Core.Bool.{Bool-set}
use ao_eo.Base.{
  ℕ, zero, suc, ◌<◌, ◌≡◌, refl, ◌∙◌, sym, Bool, true, false, List, [], ◌∷◌, String, Option, some,
  none, arith, Bool-cases, inl, inr, ◌⊎◌, modify,
}
use ao_eo.Privacy.Balancer.{
  Answer, answered, failed, Backend, Balancer, Sidecars, Detected, detected, all_failed, healthy_at,
  mark_failed, attempt, attempt_all, detect, detect_batch, health_check, pick_order,
}
use ao_eo.Privacy.Balancer.Orders.{pick_order-Mem, pick_order-backends}

-- Whether a call returned without an error
abbrev pub is_detected : {A : Type 0} → Detected A → Bool
is_detected (detected a) = true
is_detected (all_failed last) = false

health_check-true : (bs : List Backend) (i : ℕ) → healthy_at bs i ≡ true → health_check bs ≡ true
unfolding health_check
health_check-true [] i h = cc
health_check-true (b ∷ bs) zero h = rw h
health_check-true (b ∷ bs) (suc i) h = rw (health_check-true bs i h) (ground arith)

health_check-false :
    (bs : List Backend) → ((i : ℕ) → healthy_at bs i ≡ false) → health_check bs ≡ false
unfolding health_check
health_check-false [] h = refl
health_check-false (b ∷ bs) h = rw (h 0, health_check-false bs (λ i. h (suc i)))

healthy_at-modify_same :
    (bs : List Backend) (j i : ℕ) (f : Backend → Backend)
    → ((b : Backend) → (f b).healthy ≡ b.healthy)
    → healthy_at (modify bs j f) i ≡ healthy_at bs i
healthy_at-modify_same [] j i f h = refl
healthy_at-modify_same (b ∷ bs) zero zero f h = h b
healthy_at-modify_same (b ∷ bs) zero (suc i) f h = refl
healthy_at-modify_same (b ∷ bs) (suc j) zero f h = refl
healthy_at-modify_same (b ∷ bs) (suc j) (suc i) f h = healthy_at-modify_same bs j i f h

healthy_at-modify_off :
    (bs : List Backend) (j : ℕ) (f : Backend → Backend)
    → ((b : Backend) → (f b).healthy ≡ false)
    → healthy_at (modify bs j f) j ≡ false
healthy_at-modify_off [] j f h = refl
healthy_at-modify_off (b ∷ bs) zero f h = h b
healthy_at-modify_off (b ∷ bs) (suc j) f h = healthy_at-modify_off bs j f h

healthy_at-modify_stays :
    (bs : List Backend) (j i : ℕ) (f : Backend → Backend)
    → ((b : Backend) → (f b).healthy ≡ false)
    → healthy_at bs i ≡ false
    → healthy_at (modify bs j f) i ≡ false
healthy_at-modify_stays [] j i f h e = e
healthy_at-modify_stays (b ∷ bs) zero zero f h e = h b
healthy_at-modify_stays (b ∷ bs) zero (suc i) f h e = e
healthy_at-modify_stays (b ∷ bs) (suc j) zero f h e = e
healthy_at-modify_stays (b ∷ bs) (suc j) (suc i) f h e = healthy_at-modify_stays bs j i f h e

Answer-cases :
    {A : Type 0} (r : Answer A) → ((a : A) × (r ≡ answered a)) ⊎ ((e : String) × (r ≡ failed e))
Answer-cases (answered a) = inl (a, refl)
Answer-cases (failed e) = inr (e, refl)

module _ {W : Type 0} (sc : Sidecars W) {A : Type 0} (call : ℕ → W → Answer A × W) where
  -- An unhealthy backend stays so.
  attempt-stays :
      (order : List ℕ) (last : Option String) (bs : List Backend) (w : W) (i : ℕ)
      → healthy_at bs i ≡ false
      → healthy_at (attempt sc call order last bs w).1.0 i ≡ false
  unfolding attempt
  attempt-stays [] last bs w i h = h
  attempt-stays (j ∷ rest) last bs w i h = elim (Bool-cases (healthy_at bs j)) [
    | inr e ↦ rw (e, attempt) (attempt-stays rest last bs w i h)
    | inl e ↦ elim (Answer-cases (call j w).0) [
      | inl (a, r) ↦ rw (e, r, attempt) (healthy_at-modify_same bs j i _ (λ b. refl) ∙ h)
      | inr (m, r) ↦
          rw (e, r, attempt)
            (attempt-stays rest (some m) (mark_failed sc m j bs) (call j w).1 i
              (healthy_at-modify_stays bs j i _ (λ b. refl) h))
    ]
  ]

  -- A loop that fails leaves every backend of its order unhealthy.
  attempt-failed :
      (order : List ℕ) (last : Option String) (bs : List Backend) (w : W) (i : ℕ)
      → is_detected (attempt sc call order last bs w).0 ≡ false
      → Mem i order
      → healthy_at (attempt sc call order last bs w).1.0 i ≡ false
  unfolding attempt
  attempt-failed [] last bs w i h m = absurd (not-mem-nil m)
  attempt-failed (j ∷ rest) last bs w i h m = elim (Bool-cases (healthy_at bs j)) [
    | inr e ↦
        rw (e, attempt)
          (Or.elim (Bool-set _ _) (mem-cons.0 m)
            (λ (same : i ≡ j). attempt-stays rest last bs w i (rw same e))
            (attempt-failed rest last bs w i (rw (e, attempt) at h)))
    | inl e ↦ elim (Answer-cases (call j w).0) [
      | inl (a, r) ↦ let bad : true ≡ false = rw (e, r, attempt) at h in cc
      | inr (x, r) ↦
          let bs' = mark_failed sc x j bs in
          rw (e, r, attempt)
            (Or.elim (Bool-set _ _) (mem-cons.0 m)
              (λ (same : i ≡ j).
                attempt-stays rest (some x) bs' (call j w).1 i
                  (rw same (healthy_at-modify_off bs j _ (λ b. refl))))
              (attempt-failed rest (some x) bs' (call j w).1 i (rw (e, r, attempt) at h)))
    ]
  ]

  -- A loop that succeeds leaves the backend that answered healthy.
  attempt-detected :
      (order : List ℕ) (last : Option String) (bs : List Backend) (w : W)
      → is_detected (attempt sc call order last bs w).0 ≡ true
      → (i : ℕ) × (healthy_at (attempt sc call order last bs w).1.0 i ≡ true)
  unfolding attempt
  attempt-detected [] last bs w h = cc
  attempt-detected (j ∷ rest) last bs w h = elim (Bool-cases (healthy_at bs j)) [
    | inr e ↦ rw (e, attempt) (attempt-detected rest last bs w (rw (e, attempt) at h))
    | inl e ↦ elim (Answer-cases (call j w).0) [
      | inl (a, r) ↦ rw (e, r, attempt) (j, healthy_at-modify_same bs j j _ (λ b. refl) ∙ e)
      | inr (x, r) ↦
          rw (e, r, attempt)
            (attempt-detected rest (some x) _ (call j w).1 (rw (e, r, attempt) at h))
    ]
  ]

module _ {W : Type 0} (sc : Sidecars W)
    (intn_lt : (n : ℕ) (w : W) → 0 < n → (sc.intn n w).0 < n) where
  attempt_all-health_check :
      {A : Type 0} (call : ℕ → W → Answer A × W) (lb : Balancer) (w : W)
      → is_detected (attempt_all sc call lb w).0
        ≡ health_check (attempt_all sc call lb w).1.0.backends
  unfolding attempt_all
  attempt_all-health_check call lb w =
      let order = (pick_order sc lb w).0 in
      let bs = (pick_order sc lb w).1.0.backends in
      let w' = (pick_order sc lb w).1.1 in
      elim (Bool-cases (is_detected (attempt sc call order none bs w').0)) [
        | inl e ↦
            let (i, good) = attempt-detected sc call order none bs w' e in
            e ∙ sym (health_check-true _ i good)
        | inr e ↦
            e
            ∙ sym (
                health_check-false _ λ i. elim (Bool-cases (healthy_at bs i)) [
                  | inl was ↦
                      attempt-failed sc call order none bs w' i e
                        (pick_order-Mem sc intn_lt lb w i (rw (pick_order-backends sc lb w) at was))
                  | inr was ↦ attempt-stays sc call order none bs w' i was
                ])
      ]

  -- Detect, and DetectBatch of a batch that is not empty, return without an error exactly if the
  -- HealthCheck that follows finds a healthy backend: a call fails only when it has marked the last
  -- healthy backend, whatever the strategy. rand.Intn(n) is taken to be below n.
  pub detect-health_check :
      (text : String) (texts : List String) (lb : Balancer) (w : W)
      → (is_detected (detect sc text lb w).0 ≡ health_check (detect sc text lb w).1.0.backends)
        × (is_detected (detect_batch sc (text ∷ texts) lb w).0
            ≡ health_check (detect_batch sc (text ∷ texts) lb w).1.0.backends)
  unfolding detect detect_batch
  detect-health_check text texts lb w =
      (attempt_all-health_check _ lb w, attempt_all-health_check _ lb w)
