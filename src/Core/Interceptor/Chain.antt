-- ===== src/Core/Interceptor/Chain.antt =====
-- core/interceptor.go: what the chain guarantees of its hooks.
use mathlib.Core.Path.{fun_ext}
use ao_eo.Base.{◌≡◌, refl, ap, List, [], ◌∷◌, ◌++◌, Option, none, some, Error, hook_panic, ◌↔◌}
use ao_eo.Core.Interceptor.{
  Interceptor, Reply, Returned, values, panicked, Checked, unless_failed, run_before, apply_before,
  run_after, apply_after, done_error, run_done, apply_after_stream_done,
}

unless_failed_assoc :
    {A : Type 0} (c : Checked A) (f g : A → Checked A)
    → unless_failed c (λ a. unless_failed (f a) g) ≡ unless_failed (unless_failed c f) g
unfolding unless_failed
unless_failed_assoc (none, a) f g = refl
unless_failed_assoc (some e, a) f g = refl

unless_failed-eq-none :
    {A : Type 0} (c : Checked A) (f : A → Checked A) (out : A)
    → (unless_failed c f ≡ (none, out)) ↔ ((mid : A) × (c ≡ (none, mid)) × (f mid ≡ (none, out)))
unfolding unless_failed
unless_failed-eq-none (none, a) f out =
    (λ h. (a, refl, h), λ (mid, e, h). (let e' : mid ≡ a = cc in rw e' at h))
unless_failed-eq-none (some e, a) f out =
    (λ h. cc (ap (λ (c : Checked _). c.0) h), λ (mid, q, h). cc (ap (λ (c : Checked _). c.0) q))

run_done-some :
    {Req : Type 0} (hook : Option (Req → Option Error → Returned (Option Error))) (req : Req)
    (e : Error)
    → (e' : Error) × (run_done hook req (some e) ≡ some e')
unfolding run_done
run_done-some none req e = (e, refl)
run_done-some (some hook) req e = kept (hook req (some e))
  where
    kept : (r : Returned (Option Error)) → (e' : Error) × (done_error (some e) r ≡ some e')
    kept (values none) = (e, refl)
    kept (values (some e')) = (e', refl)
    kept (panicked r) = (hook_panic r, refl)

module _ {Req Resp Chunk : Type 0} where
  -- The chain of two parts runs the second only if the first has not failed, on the request that
  -- the first left.
  pub apply_before-append :
      (xs ys : List (Interceptor Req Resp Chunk)) (req : Req)
      → apply_before (xs ++ ys) req ≡ unless_failed (apply_before xs req) (apply_before ys)
  unfolding apply_before
  apply_before-append [] ys req = refl
  apply_before-append (ic ∷ xs) ys req =
      rw (fun_ext (apply_before-append xs ys))
        (unless_failed_assoc (run_before ic.before_request req) (apply_before xs) (apply_before ys))

  -- Every hook of the chain, in turn, has passed the request on.
  abbrev pub Passed : List (Interceptor Req Resp Chunk) → Req → Req → Type 0
  Passed [] req out = req ≡ out
  Passed (ic ∷ chain) req out =
      (mid : Req) × (run_before ic.before_request req ≡ (none, mid)) × Passed chain mid out

  -- ApplyBefore succeeds exactly if every hook in turn returned nil without a panic, each on the
  -- request that the one before it left; its result is the request that the last one left.
  pub apply_before-Passed :
      (chain : List (Interceptor Req Resp Chunk)) (req out : Req)
      → (apply_before chain req ≡ (none, out)) ↔ Passed chain req out
  unfolding apply_before
  apply_before-Passed [] req out =
      (λ h. ap (λ (c : Checked Req). c.1) h, λ h. ap (λ r. (none, r)) h)
  apply_before-Passed (ic ∷ chain) req out =
      let split =
        unless_failed-eq-none (run_before ic.before_request req) (apply_before chain) out in
      (
        λ h. (let (mid, p, q) = split.0 h in (mid, p, (apply_before-Passed chain mid out).0 q)),
        λ (mid, p, passed). split.1 (mid, p, (apply_before-Passed chain mid out).1 passed),
      )

  -- ApplyAfter of two parts is one after the other: a hook always sees the reply that the hook
  -- before it made, also after a panic, which becomes an error with no response.
  pub apply_after-append :
      (xs ys : List (Interceptor Req Resp Chunk)) (req : Req) (r : Reply Resp)
      → apply_after (xs ++ ys) req r ≡ apply_after ys req (apply_after xs req r)
  unfolding apply_after
  apply_after-append [] ys req r = refl
  apply_after-append (ic ∷ xs) ys req r =
      apply_after-append xs ys req (run_after ic.after_response req r)

  -- ApplyAfterStreamDone never clears an error.
  pub stream_done_keeps_error :
      (chain : List (Interceptor Req Resp Chunk)) (req : Req) (e : Error)
      → (e' : Error) × (apply_after_stream_done chain req (some e) ≡ some e')
  unfolding apply_after_stream_done
  stream_done_keeps_error [] req e = (e, refl)
  stream_done_keeps_error (ic ∷ chain) req e =
      let (e', p) = run_done-some ic.after_stream_done req e in
      rw p (stream_done_keeps_error chain req e')
