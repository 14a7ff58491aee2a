-- ===== src/Privacy/Gateway/Passage.antt =====
-- privacy/gateway.go: what BeforeRequest lets pass, and what AfterResponse restores.
use mathlib.Core.Path.{subst}
use ao_eo.Base.{ℕ, ◌≡◌, ◌≢◌, refl, Bool, List, [], ◌∷◌, String, Option, some, none, arith}
use ao_eo.Core.Types.{Request, Response, PrivacyMapping, content_of}
use ao_eo.Privacy.Balancer.{Sidecars, failed, detect, detect_batch}
use ao_eo.Privacy.Adapter.Balanced.{balanced_client, answer_of-failed, attempt_all-IsFailed}
use ao_eo.Privacy.Adapter.{Client, spans_or_none}
use ao_eo.Privacy.Adapter
use ao_eo.Privacy.Pseudonymizer.{
  Span, Vault, Pass, passed, refused, stuck, concat, contents, pseudonymize_spans,
  pseudonymize_request,
}
use ao_eo.Privacy.Pseudonymizer.Restoring.{entries_of}
use ao_eo.Privacy.Pseudonymizer.Ensures.{Ensures}
use ao_eo.Privacy.Pseudonymizer.Reuse.{Lacks, pseudonymize_request-Lacks}
use ao_eo.Privacy.Pseudonymizer.Pieces.{plain}
use ao_eo.Privacy.Pseudonymizer.Restoration.{AllMarked, Says, restore_with_mappings-plain}
use ao_eo.Privacy.Gateway.{
  Carrying, Hooked, Stats, handed_on, before_request, after_response, extract_session_id,
}

-- A model client whose every call with a text fails; what it does for no texts is left open, since
-- the clients give nothing there without a call.
pub record Down {W : Type 0} (c : Client W) : Type 0 where
  pub one : (t : String) (w : W) → (e : String) × ((c.detect t w).0 ≡ failed e)
  pub batch :
      (t : String) (ts : List String) (w : W)
      → (e : String) × ((c.detect_batch (t ∷ ts) w).0 ≡ failed e)

-- The load balancer is such a client while each of its backends fails on every call with a text.
pub balanced_client-Down :
    {W : Type 0} (sc : Sidecars W)
    → ((i : ℕ) (t : String) (w : W) → (e : String) × ((sc.detect i t w).0 ≡ failed e))
    → ((i : ℕ) (t : String) (ts : List String) (w : W)
        → (e : String) × ((sc.detect_batch i (t ∷ ts) w).0 ≡ failed e))
    → Down (balanced_client sc)
unfolding balanced_client detect detect_batch
balanced_client-Down sc one batch = record {
  one = λ t lw.
      answer_of-failed "all privacy backends failed" _
        (attempt_all-IsFailed sc (λ i. sc.detect i t) (λ i w. one i t w) lw.0 lw.1);
  batch = λ t ts lw.
      answer_of-failed "all privacy backends failed batch" _ (
        attempt_all-IsFailed sc (λ i. sc.detect_batch i (t ∷ ts)) (λ i w. batch i t ts w) lw.0
          lw.1);
}

module _ {W : Type 0} (c : Client W) (down : Down c) where
  detect_each-none : (ts : List String) (w : W) → concat (Adapter.detect_each c ts w).0 ≡ []
  unfolding Adapter.detect_each Adapter.detect
  detect_each-none [] w = refl
  detect_each-none (t ∷ ts) w = rw (down.one t w).1 (detect_each-none ts (c.detect t w).1)

  detect_batch-none : (ts : List String) (w : W) → concat (Adapter.detect_batch c ts w).0 ≡ []
  unfolding Adapter.detect_batch
  detect_batch-none [] w = refl
  detect_batch-none (t ∷ ts) w =
      rw (down.batch t ts w).1 (detect_each-none (t ∷ ts) (c.detect_batch (t ∷ ts) w).1)

  nothing_found :
      (v : Vault W) (session : String) (fuel : ℕ) (req : Request) (w : W) (spans : List Span)
      → spans ≡ []
      → pseudonymize_spans v session fuel spans req w ≡ passed (req, ([], w))
  unfolding pseudonymize_spans
  nothing_found v session fuel req w spans e = rw e

  -- While the model client fails on every call with a text, BeforeRequest returns no error and hands on the
  -- request as it came, also if FailOpen is not set: the adapter makes an empty detection of each
  -- error.
  pub before_request-Down :
      (v : Vault W) (fail_open : Bool) (ctx : Option String) (fuel : ℕ) (before : Carrying)
      (st : Stats) (w : W)
      → let v' : Vault W = record v { detect_batch = Adapter.detect_batch c } in
        (w' : W) × (before_request v' fail_open ctx fuel before st w
          ≡ some (record { error = none; carrying = before; stats = st; world = w' }))
  unfolding before_request pseudonymize_request
  before_request-Down v fail_open ctx fuel before st w =
      let v' : Vault W = record v { detect_batch = Adapter.detect_batch c } in
      let w' = (Adapter.detect_batch c (contents before.request.messages) w).1 in
      let ms = contents before.request.messages in
      (w', rw (nothing_found v' _ fuel before.request w' _ (detect_batch-none ms w)))

module _ {W : Type 0} (v : Vault W) (fail_open : Bool) (o : String) where
  -- What the metadata carries after BeforeRequest, where it carried nothing before
  handed_on-Lacks :
      (p : Pass W (Request × (List PrivacyMapping × W))) (before : Carrying) (st : Stats)
      (after : Hooked W) (ms : List PrivacyMapping)
      → Ensures (λ (sent : Request × (List PrivacyMapping × W)). Lacks o sent.1.0) p
      → handed_on v fail_open p before st ≡ some after
      → before.mappings ≡ none
      → after.carrying.mappings ≡ some ms
      → Lacks o ms
  unfolding handed_on
  handed_on-Lacks stuck before st after ms h e clean carries = absurd (ground arith)
  handed_on-Lacks (refused t w) before st after ms h e clean carries = absurd (ground arith)
  handed_on-Lacks (passed (req, ([], w))) before st after ms h e clean carries =
      absurd (ground arith)
  handed_on-Lacks (passed (req, (m ∷ rest, w))) before st after ms h e clean carries =
      let same : m ∷ rest ≡ ms = ground arith in subst (Lacks o) same h

-- Where BeforeRequest has made a new mapping, a value that had its mapping in the session before is
-- in none of the mappings that the metadata carries, and AfterResponse leaves a response as it is
-- that has none of the new fake values: the fake value of the reused mapping reaches the user. It is
-- assumed that the response lacks the first character of each new fake value.
pub reused_value-unrestored :
    {W : Type 0} (v : Vault W) (fail_open : Bool) (ctx : Option String) (fuel : ℕ)
    (before : Carrying) (st : Stats) (w : W) (o : String)
    → ((w' : W) → v.get_fake (extract_session_id ctx before.request.tags) o w' ≢ none)
    → before.mappings ≡ none
    → (after : Hooked W) → before_request v fail_open ctx fuel before st w ≡ some after
    → (m : PrivacyMapping) (ms : List PrivacyMapping) → after.carrying.mappings ≡ some (m ∷ ms)
    → (resp : Response) (text : String) → Says resp text
    → AllMarked (entries_of (m ∷ ms)) (plain text ∷ [])
    → (st' : Stats) (w' : W)
    → Lacks o (m ∷ ms)
      × (content_of (after_response v fail_open ctx after.carrying (some resp) st' w').0.0 ≡ text)
unfolding before_request after_response
reused_value-unrestored v fail_open ctx fuel before st w o known clean after returned m ms carries
      resp text says marked st' w' =
    (
      handed_on-Lacks v fail_open o
          (pseudonymize_request v (extract_session_id ctx before.request.tags) fuel before.request
            w)
          before st after (m ∷ ms)
          (pseudonymize_request-Lacks v (extract_session_id ctx before.request.tags) o known fuel
            before.request w)
          returned clean carries,
      rw (carries, after_response) (restore_with_mappings-plain (m ∷ ms) resp text marked says),
    )
