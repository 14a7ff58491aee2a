-- ===== src/Engine/Audit/Others.antt =====
-- internal/engine/scheduler.go and audit.go: the round robin comes to a provider of another name.
use native.Mathlib.Nat.{mod-add-mod, mod-eq_of_lt, mod-lt, add-mod_right}
use ao_eo.Base.{
  ℕ, zero, suc, ◌+◌, ◌-◌, ◌%◌, ◌^◌, ◌≤◌, ◌<◌, ◌≡◌, ◌≢◌, refl, ap, ◌∙◌, sym, List, [], ◌∷◌, length,
  get_elem?, String, true, Option, none, some, arith, Bool-cases, inl, inr, ltb, leb, str_eq,
  eq_iff, differs,
}
use ao_eo.Core.Router.{add_one}
use ao_eo.Engine.Scheduler.{Provider, Scheduler, State}
use ao_eo.Engine.Scheduler.Fallback.{available_providers, refresh, cached_or_fresh}
use ao_eo.Engine.Audit.{Words, picked, pick_round_robin, unless_same, pick_other}

-- The index j comes up within n turns.
turn_of : (rr j n : ℕ) → j < n → (m : ℕ) × (m < n) × ((rr + m) % n ≡ j)
turn_of rr j n lt =
    let below : rr % n < n = mod-lt rr (omega arith) in
    elim (Bool-cases (leb (rr % n) j)) [
      | inl le ↦ (
        j - rr % n,
        ground arith,
        sym (mod-add-mod rr n (j - rr % n)) ∙ ap (λ k. k % n) (ground arith) ∙ mod-eq_of_lt lt,
      )
      | inr gt ↦ (
        j + n - rr % n,
        ground arith,
        sym (mod-add-mod rr n (j + n - rr % n))
            ∙ ap (λ k. k % n) (ground arith)
            ∙ add-mod_right j n
            ∙ mod-eq_of_lt lt,
      )
    ]

module _ {A : Type 0} where
  pub present : (xs : List A) (i : ℕ) → i < length xs → (x : A) × (get_elem? xs i ≡ some x)
  present [] i lt = absurd (omega arith)
  present (x ∷ xs) zero lt = (x, refl)
  present (x ∷ xs) (suc i) lt = present xs i (omega arith)

  index_within : (xs : List A) (i : ℕ) {x : A} → get_elem? xs i ≡ some x → i < length xs
  index_within [] i e = absurd (cc e)
  index_within (x ∷ xs) zero e = omega arith
  index_within (x ∷ xs) (suc i) e = (let rest = index_within xs i e in omega arith)

module _ {W : Type 0} (ws : Words) (sch : Scheduler W) where
  refresh-again : (s : State W) → (available_providers sch (refresh sch s).1).0 ≡ (refresh sch s).0
  unfolding available_providers refresh
  refresh-again s =
      elim (Bool-cases (ltb (sch.now_ms s.world - sch.now_ms s.world) sch.cache_ttl_ms)) [
        | inl e ↦ rw e refl
        | inr e ↦ rw e refl
      ]

  same_list :
      (s : State W) (c : List (Provider W) × ℕ)
      → s.avail_cache ≡ some c
      → ltb (sch.now_ms s.world - c.1) sch.cache_ttl_ms ≡ true
      → (available_providers sch s).0 ≡ c.0
  unfolding available_providers
  same_list s c e f = rw (e, cached_or_fresh, f)

  again_of :
      (o : Option (List (Provider W) × ℕ)) (s : State W)
      → s.avail_cache ≡ o
      → (available_providers sch (cached_or_fresh o sch s).1).0 ≡ (cached_or_fresh o sch s).0
  again_of none s e = refresh-again s
  again_of (some c) s e = elim (Bool-cases (ltb (sch.now_ms s.world - c.1) sch.cache_ttl_ms)) [
    | inl f ↦ rw f (same_list s c e f)
    | inr f ↦ rw f (refresh-again s)
  ]

  -- A scan right after a scan gives the same list.
  pub rescan :
      (s : State W)
      → (available_providers sch (available_providers sch s).1).0 ≡ (available_providers sch s).0
  unfolding available_providers
  rescan s = again_of s.avail_cache s refl

  unchanged :
      (s : State W) (c : List (Provider W) × ℕ)
      → s.avail_cache ≡ some c
      → ltb (sch.now_ms s.world - c.1) sch.cache_ttl_ms ≡ true
      → (available_providers sch s).1 ≡ s
  unfolding available_providers
  unchanged s c e f = rw (e, cached_or_fresh, f)

  refresh-settles :
      (s : State W) → (available_providers sch (refresh sch s).1).1 ≡ (refresh sch s).1
  unfolding available_providers refresh
  refresh-settles s =
      elim (Bool-cases (ltb (sch.now_ms s.world - sch.now_ms s.world) sch.cache_ttl_ms)) [
        | inl e ↦ rw e refl
        | inr e ↦ rw e refl
      ]

  settles_of :
      (o : Option (List (Provider W) × ℕ)) (s : State W)
      → s.avail_cache ≡ o
      → (available_providers sch (cached_or_fresh o sch s).1).1 ≡ (cached_or_fresh o sch s).1
  settles_of none s e = refresh-settles s
  settles_of (some c) s e = elim (Bool-cases (ltb (sch.now_ms s.world - c.1) sch.cache_ttl_ms)) [
    | inl f ↦ rw f (unchanged s c e f)
    | inr f ↦ rw f (refresh-settles s)
  ]

  -- A scan right after a scan changes nothing.
  pub rescan-settles :
      (s : State W)
      → (available_providers sch (available_providers sch s).1).1 ≡ (available_providers sch s).1
  unfolding available_providers
  rescan-settles s = settles_of s.avail_cache s refl

  picked-index :
      (ps : List (Provider W)) (rr : ℕ) (s : State W)
      → rr + 1 < 2 ^ 64
      → 0 < length ps
      → picked ws sch ps rr s ≡ (get_elem? ps (rr % length ps), (rr + 1, s))
  unfolding add_one
  picked-index [] rr s h lt = absurd (omega arith)
  picked-index (p ∷ ps) rr s h lt =
      let stays : (rr + 1) % 2 ^ 64 ≡ rr + 1 = omega arith in
      let back : (rr + 1 + (2 ^ 64 - 1)) % 2 ^ 64 ≡ rr = omega arith in rw (stays, back)

  -- A provider of another name
  abbrev pub Other : String → Option (Provider W) → Type 0
  Other name o = (p : Provider W) × (o ≡ some p) × (p.config.name ≢ name)

  abbrev name_of : Option (Provider W) → String
  name_of none = ""
  name_of (some y) = y.config.name

  unless_same-Other :
      (name : String) (c rest : Option (Provider W) × (ℕ × State W)) (p : Provider W)
      → c.0 ≡ some p
      → (p.config.name ≡ name → Other name rest.0)
      → Other name (unless_same ws sch name c rest).0
  unless_same-Other name (none, after) rest p e h = absurd (cc e)
  unless_same-Other name (some x, after) rest p e h =
      elim (Bool-cases (str_eq x.config.name name)) [
        | inl same ↦ rw same (h (ap name_of (sym e) ∙ (eq_iff x.config.name name).0 same))
        | inr other ↦ rw other (x, refl, differs x.config.name name other)
      ]

  pick_eq :
      (ps : List (Provider W)) (rr : ℕ) (s : State W)
      → (available_providers sch s).0 ≡ ps
      → rr + 1 < 2 ^ 64
      → 0 < length ps
      → pick_round_robin ws sch rr s
        ≡ (get_elem? ps (rr % length ps), (rr + 1, (available_providers sch s).1))
  unfolding pick_round_robin
  pick_eq ps rr s e h lt = rw e (picked-index ps rr (available_providers sch s).1 h lt)

  finds_within :
      (name : String) (ps : List (Provider W)) (q : Provider W) (attempts rr m : ℕ) (s : State W)
      → (available_providers sch s).0 ≡ ps
      → get_elem? ps ((rr + m) % length ps) ≡ some q
      → 0 < length ps
      → q.config.name ≢ name
      → m < attempts
      → rr + attempts < 2 ^ 64
      → Other name (pick_other ws sch name attempts rr s).0
  unfolding pick_other
  finds_within name ps q zero rr m s e at filled other lt small = absurd (omega arith)
  finds_within name ps q (suc attempts) rr zero s e at filled other lt small =
      let turn = pick_eq ps rr s e (omega arith) filled in
      rw turn (
        unless_same-Other name
          (get_elem? ps (rr % length ps), (rr + 1, (available_providers sch s).1)) _ q
          (ap (λ k. get_elem? ps (k % length ps)) (omega arith) ∙ at) (λ same. absurd (other same)))
  finds_within name ps q (suc attempts) rr (suc m) s e at filled other lt small =
      let turn = pick_eq ps rr s e (omega arith) filled in
      let (p, here) = present ps (rr % length ps) (mod-lt rr filled) in
      let at' : get_elem? ps ((rr + 1 + m) % length ps) ≡ some q =
        ap (λ k. get_elem? ps (k % length ps)) (omega arith) ∙ at in
      rw turn (
        unless_same-Other name
          (get_elem? ps (rr % length ps), (rr + 1, (available_providers sch s).1)) _ p here
          (λ same.
            finds_within name ps q attempts (rr + 1) m (available_providers sch s).1 (rescan s ∙ e)
              at' filled other (omega arith) (omega arith)))

  -- If some provider in the list of AvailableProviders has another name, then so many attempts as the
  -- list is long find one: the round robin passes over every provider, whatever its counter is, and
  -- the list does not change in the meantime. It is assumed that the 64-bit counter does not wrap
  -- around in these attempts.
  pub pick_other-finds :
      (name : String) (attempts rr : ℕ) (s : State W) (j : ℕ) (q : Provider W)
      → get_elem? (available_providers sch s).0 j ≡ some q
      → q.config.name ≢ name
      → length (available_providers sch s).0 ≤ attempts
      → rr + attempts < 2 ^ 64
      → Other name (pick_other ws sch name attempts rr s).0
  pick_other-finds name attempts rr s j q at other enough small =
      let ps = (available_providers sch s).0 in
      let within = index_within ps j at in
      let (m, lt, turn) = turn_of rr j (length ps) within in
      finds_within name ps q attempts rr m s refl (ap (get_elem? ps) turn ∙ at) (omega arith) other
        (omega arith) small
