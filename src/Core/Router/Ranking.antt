-- ===== src/Core/Router/Ranking.antt =====
-- core/router.go: the ranking of WeightedRouter.
use mathlib.Core.List.{Perm}
use mathlib.Core.List.Perm
use ao_eo.Base.{
  ℕ, ◌+◌, ◌≡◌, refl, ap, inl, inr, true, List, [], ◌∷◌, exchange_sort, exchange_sort-perm,
  exchange_sort-IsSorted, IsSorted, IsStrictOrder, Bool-cases,
}
use ao_eo.Core.Router.{
  ProviderStatus, available_indices, available_from, nonempty, Float64, WeightStrategy, Scored,
  scored_from, higher, indices, weighted_sequence, weighted_select, weighted_pick, total_weight,
}
use ao_eo.Core.Router.Select.{first}
use ao_eo.Core.Router.Turns.{select_zero}

module _ (f : Float64) (w : WeightStrategy) where
  indices-scored_from :
      (i : ℕ) (cs : List ProviderStatus) → indices f (scored_from f w i cs) ≡ available_from i cs
  unfolding scored_from available_from
  indices-scored_from i [] = refl
  indices-scored_from i (c ∷ cs) = elim (Bool-cases c.available) [
    | inl e ↦ rw e (ap (◌∷◌ i) (indices-scored_from (i + 1) cs))
    | inr e ↦ rw e (indices-scored_from (i + 1) cs)
  ]

  -- SelectSequence of WeightedRouter fails if no candidate is available, and otherwise returns a
  -- reordering of the available indices by scores of which none is followed by a higher one. The
  -- floating-point order is taken to be the strict part of a total preorder, as on numbers.
  pub weighted_sequence_ranks :
      IsStrictOrder (higher f)
      → (cs : List ProviderStatus)
      → (ranked : List (Scored f.Value)) × (weighted_sequence f w cs ≡ nonempty (indices f ranked))
        × Perm (indices f ranked) (available_indices cs)
        × Perm ranked (scored_from f w 0 cs)
        × IsSorted (higher f) ranked
  unfolding weighted_sequence
  weighted_sequence_ranks order cs = (
    exchange_sort (higher f) (scored_from f w 0 cs),
    refl,
    rw (← indices-scored_from 0 cs)
        (Perm.map _ (exchange_sort-perm (higher f) (scored_from f w 0 cs))),
    exchange_sort-perm (higher f) (scored_from f w 0 cs),
    exchange_sort-IsSorted (higher f) order _,
  )

  pick_fallback :
      (ss : List (Scored f.Value)) (cs : List ProviderStatus) (c : ℕ)
      → indices f ss ≡ available_indices cs
      → f.le (total_weight f (f.of_int 0) ss) (f.of_int 0) ≡ true
      → weighted_pick f ss cs c ≡ (first (available_indices cs), c)
  unfolding weighted_pick
  pick_fallback [] cs c e h = rw (← e)
  pick_fallback (s ∷ ss) cs c e h = rw (h, weighted_pick) (ap (λ r. (r, c)) (select_zero cs))

  -- Where the weights sum to nothing, Select of WeightedRouter makes a new round-robin router for
  -- the call: it returns the first available candidate, whatever the counter, and the counter stays.
  pub weighted_fallback_first :
      (cs : List ProviderStatus) (c : ℕ)
      → f.le (total_weight f (f.of_int 0) (scored_from f w 0 cs)) (f.of_int 0) ≡ true
      → weighted_select f w cs c ≡ (first (available_indices cs), c)
  unfolding weighted_select
  weighted_fallback_first cs c h =
      pick_fallback (scored_from f w 0 cs) cs c (indices-scored_from 0 cs) h
