-- ===== src/Privacy/Adapter/Balanced.antt =====
-- privacy/model/loadbalancer.go: LoadBalancedClient as the model client of the adapter. The error says
-- that all backends have failed, with the text of the last error.
use ao_eo.Base.{
  ℕ, ◌≡◌, refl, String, List, [], ◌∷◌, Option, none, some, append, Bool-cases, inl, inr,
}
use ao_eo.Privacy.Balancer.{
  Backend, Balancer, Answer, answered, failed, Sidecars, Detected, detected, all_failed, healthy_at,
  mark_failed, pick_order, attempt, attempt_all, detect, detect_batch,
}
use ao_eo.Privacy.Adapter.{Client}

-- fmt.Errorf with %w, also for a nil error
abbrev pub all_failed_text : String → Option String → String
all_failed_text what none = append what " (last: %!w(<nil>))"
all_failed_text what (some e) = append what (append " (last: " (append e ")"))

unfoldable pub answer_of : {A : Type 0} → String → Detected A → Answer A
answer_of what (detected a) = answered a
answer_of what (all_failed last) = failed (all_failed_text what last)

abbrev pub IsFailed : {A : Type 0} → Detected A → Type 0
IsFailed (detected a) = ⊥
IsFailed (all_failed last) = Unit {0}

pub answer_of-failed :
    {A : Type 0} (what : String) (d : Detected A)
    → IsFailed d
    → (e : String) × (answer_of what d ≡ failed e)
unfolding answer_of
answer_of-failed what (detected a) h = absurd h
answer_of-failed what (all_failed last) h = (all_failed_text what last, refl)

module _ {W : Type 0} (sc : Sidecars W) where
  -- The client works on its own balancer beside the world.
  unfoldable pub balanced_client : Client (Balancer × W)
  unfolding answer_of detect detect_batch
  balanced_client = record {
    detect = λ text lw.
        let found = detect sc text lw.0 lw.1 in
        (answer_of "all privacy backends failed" found.0, found.1);
    detect_batch = λ texts lw.
        let found = detect_batch sc texts lw.0 lw.1 in
        (answer_of "all privacy backends failed batch" found.0, found.1);
  }

  module _ {A : Type 0} (call : ℕ → W → Answer A × W)
      (fails : (i : ℕ) (w : W) → (e : String) × ((call i w).0 ≡ failed e)) where
    attempt-IsFailed :
        (order : List ℕ) (last : Option String) (bs : List Backend) (w : W)
        → IsFailed (attempt sc call order last bs w).0
    unfolding attempt
    attempt-IsFailed [] last bs w = tt
    attempt-IsFailed (i ∷ order) last bs w = elim (Bool-cases (healthy_at bs i)) [
      | inl up ↦
          let (e, failing) = fails i w in
          rw (up, failing, attempt)
            (attempt-IsFailed order (some e) (mark_failed sc e i bs) (call i w).1)
      | inr down ↦ rw (down, attempt) (attempt-IsFailed order last bs w)
    ]

    -- Where every call of a backend fails, so does the balancer.
    pub attempt_all-IsFailed : (lb : Balancer) (w : W) → IsFailed (attempt_all sc call lb w).0
    unfolding attempt_all
    attempt_all-IsFailed lb w =
        let picked = pick_order sc lb w in
        attempt-IsFailed picked.0 none picked.1.0.backends picked.1.1
