-- ===== src/Engine/Scheduler/Pick.antt =====
-- internal/engine/scheduler.go: pickWithRouter gives an available provider, whatever the router says.
use ao_eo.Base.{
  ℕ, zero, suc, ◌≡◌, refl, ap, ◌∙◌, inl, inr, Bool, true, false, List, [], ◌∷◌, drop, get_elem?,
  Option, none, some, Outcome, ok, err, panic, no_available_provider, ℤ, pos, negsuc, Bool-cases,
  arith,
}
use ao_eo.Core.Types.{Request}
use ao_eo.Core.Router.{ProviderStatus, available_indices}
use ao_eo.Core.Router.Select.{IsAvailable, Listed, available_from_sound, available_from_complete}
use ao_eo.Providers.Breaker.{ProviderConfig}
use ao_eo.Engine.Scheduler.{
  Provider, Router, Scheduler, status_from, provider_status, usable, choose, pick_with,
  pick_with_router, first_or_routed, marked, or_first,
}

abbrev mark : Option ProviderStatus → Bool
mark none = false
mark (some st) = st.available

marked-IsAvailable :
    (i j : ℕ) (status : List ProviderStatus) (o : Option ProviderStatus)
    → get_elem? status j ≡ o
    → marked j o ≡ some i
    → IsAvailable status i
marked-IsAvailable i j status none e h = absurd (cc h)
marked-IsAvailable i j status (some st) e h = elim (Bool-cases st.available) [
  | inl a ↦ (st, (ap (get_elem? status) (ground arith) ∙ e), a)
  | inr a ↦ ground arith
]

usable-IsAvailable :
    (idx : ℤ) (i : ℕ) (status : List ProviderStatus)
    → usable idx status ≡ some i
    → IsAvailable status i
unfolding usable
usable-IsAvailable (negsuc n) i status h = absurd (cc h)
usable-IsAvailable (pos j) i status h = marked-IsAvailable i j status (get_elem? status j) refl h

module _ {W : Type 0} where
  -- Provider i exists and is available.
  abbrev pub Serves : List (Provider W) → W → ℕ → Type 0
  Serves ps w i = (p : Provider W) × (get_elem? ps i ≡ some p) × (p.is_available w ≡ true)

  status-Serves :
      (ps : List (Provider W)) (cfgs : List ProviderConfig) (w : W) (i : ℕ)
      → IsAvailable (status_from ps cfgs w) i
      → Serves ps w i
  unfolding status_from
  status-Serves [] cfgs w i (st, e, a) = absurd (cc e)
  status-Serves (p ∷ ps) cfgs w zero (st, e, a) = (p, refl, ap (λ o. mark o) e ∙ a)
  status-Serves (p ∷ ps) cfgs w (suc i) h = status-Serves ps (drop 1 cfgs) w i h

  Serves-status :
      (ps : List (Provider W)) (cfgs : List ProviderConfig) (w : W) (i : ℕ)
      → Serves ps w i
      → IsAvailable (status_from ps cfgs w) i
  unfolding status_from
  Serves-status [] cfgs w i (p, e, a) = absurd (cc e)
  Serves-status (p ∷ ps) cfgs w zero (q, e, a) = (_, refl, ground arith)
  Serves-status (p ∷ ps) cfgs w (suc i) h = Serves-status ps (drop 1 cfgs) w i h

  -- What a choice promises: an index of an available provider; the error only when there is none;
  -- a panic only when the router panics.
  abbrev pub Picked : Scheduler W → Request → W → Outcome ℕ → Type 0
  Picked sch req w (ok i) = Serves sch.providers w i
  Picked sch req w (err e) = (e ≡ no_available_provider) × ((i : ℕ) → Serves sch.providers w i → ⊥)
  Picked sch req w (panic m) =
      (r : Router W) × (sch.router ≡ some r)
      × ((r.select (provider_status sch w) req w).0 ≡ panic m)

  choose-Picked :
      (sch : Scheduler W) (req : Request) (w : W) (r : Router W) (first : ℕ)
      → sch.router ≡ some r
      → Serves sch.providers w first
      → Picked sch req w
          (choose (r.select (provider_status sch w) req w).0 (provider_status sch w) first)
  unfolding choose provider_status
  choose-Picked sch req w r first e h = chosen (r.select (provider_status sch w) req w).0 refl
    where
      or_first-Serves :
          (o : Option ℕ)
          → ((i : ℕ) → o ≡ some i → Serves sch.providers w i)
          → Picked sch req w (or_first o first)
      or_first-Serves none k = h
      or_first-Serves (some i) k = k i refl

      chosen :
          (o : Outcome ℤ)
          → (r.select (provider_status sch w) req w).0 ≡ o
          → Picked sch req w (choose o (provider_status sch w) first)
      chosen (ok idx) k = or_first-Serves (usable idx (provider_status sch w)) (λ i u.
          status-Serves sch.providers sch.provider_cfgs w i
            (usable-IsAvailable idx i (provider_status sch w) u))
      chosen (err x) k = h
      chosen (panic m) k = (r, e, k)

  routed-Picked :
      (sch : Scheduler W) (req : Request) (w : W) (is : List ℕ) (o : Option (Router W))
      → sch.router ≡ o
      → ((i : ℕ) → Listed i is → Serves sch.providers w i)
      → ((i : ℕ) → Serves sch.providers w i → Listed i is)
      → Picked sch req w (first_or_routed is o (provider_status sch w) req w).0
  unfolding first_or_routed pick_with
  routed-Picked sch req w [] o e h k = (refl, k)
  routed-Picked sch req w (first ∷ rest) none e h k = h first (inl refl)
  routed-Picked sch req w (first ∷ rest) (some r) e h k =
      choose-Picked sch req w r first e (h first (inl refl))

  -- Whatever the router answers, an index out of range, that of an unavailable provider or an error,
  -- pickWithRouter gives the index of an available provider; it reports that there is none only when
  -- none is available, and it panics only when the router panics.
  pub pick_with_router-Picked :
      (sch : Scheduler W) (req : Request) (w : W) → Picked sch req w (pick_with_router sch req w).0
  unfolding pick_with_router provider_status
  pick_with_router-Picked sch req w =
      let status = provider_status sch w in
      routed-Picked sch req w (available_indices status) sch.router refl
        (λ i l.
          let (j, e, found) = available_from_sound 0 i status l in
          let same : i ≡ j = omega (arith, e) in
          status-Serves sch.providers sch.provider_cfgs w i (rw same found))
        (λ i s.
          available_from_complete 0 i i status (omega arith)
            (Serves-status sch.providers sch.provider_cfgs w i s))
