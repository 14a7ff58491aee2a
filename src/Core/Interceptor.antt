-- ===== src/Core/Interceptor.antt =====
-- core/interceptor.go: the chain of hooks around a call. A hook may be nil, may change what its
-- pointer argument points to, may return an error, and may panic; what it changed before a panic
-- stays changed.
pub mod Chain
use ao_eo.Base.{
  String, List, [], ◌∷◌, Option, none, some, Outcome, ok, err, panic, Error, hook_panic,
}

-- `(*ChatCompletionResponse, error)`: either, both or neither may be nil.
pub record Reply (Resp : Type 0) : Type 0 where
  pub resp : Option Resp
  pub error : Option Error

-- What comes of a hook that returns values and no third thing: those values, or a panic.
pub data Returned (A : Type 0) : Type 0 where
  values : A → Returned A
  panicked : String → Returned A

-- A hook on a request or on a chunk: its error result, and what the pointer leads to afterwards.
abbrev pub Mutator : Type 0 → Type 0
Mutator A = A → Outcome (Unit {0}) × A

pub record Interceptor (Req Resp Chunk : Type 0) : Type 0 where
  pub before_request : Option (Mutator Req)
  pub after_response : Option (Req → Reply Resp → Returned (Reply Resp))
  pub after_stream_chunk : Option (Req → Mutator Chunk)
  pub after_stream_done : Option (Req → Option Error → Returned (Option Error))

-- The result of a chain: nil or the first error, never a panic.
abbrev pub Checked : Type 0 → Type 0
Checked A = Option Error × A

-- One hook under its deferred recover.
unfoldable pub guarded : {A : Type 0} → Outcome (Unit {0}) × A → Option Error × A
guarded (ok u, a) = (none, a)
guarded (err e, a) = (some e, a)
guarded (panic r, a) = (some (hook_panic r), a)

-- An error ends the chain; `rest` is what the hooks behind would do.
unfoldable pub unless_failed : {A : Type 0} → Checked A → (A → Checked A) → Checked A
unless_failed (none, a) rest = rest a
unless_failed (some e, a) rest = (some e, a)

unfoldable pub run_before : {Req : Type 0} → Option (Mutator Req) → Req → Checked Req
unfolding guarded
run_before none req = (none, req)
run_before (some hook) req = guarded (hook req)

unfoldable pub guarded_reply : {Resp : Type 0} → Returned (Reply Resp) → Reply Resp
guarded_reply (values r) = r
guarded_reply (panicked r) = record { resp = none; error = some (hook_panic r) }

unfoldable pub run_after :
    {Req Resp : Type 0}
    → Option (Req → Reply Resp → Returned (Reply Resp))
    → Req
    → Reply Resp
    → Reply Resp
unfolding guarded_reply
run_after none req r = r
run_after (some hook) req r = guarded_reply (hook req r)

unfoldable pub run_chunk :
    {Req Chunk : Type 0} → Option (Req → Mutator Chunk) → Req → Chunk → Checked Chunk
unfolding guarded
run_chunk none req chunk = (none, chunk)
run_chunk (some hook) req chunk = guarded (hook req chunk)

-- A hook that returns nil leaves the error as it was.
unfoldable pub done_error : Option Error → Returned (Option Error) → Option Error
done_error e (values none) = e
done_error e (values (some e')) = some e'
done_error e (panicked r) = some (hook_panic r)

unfoldable pub run_done :
    {Req : Type 0}
    → Option (Req → Option Error → Returned (Option Error))
    → Req
    → Option Error
    → Option Error
unfolding done_error
run_done none req e = e
run_done (some hook) req e = done_error e (hook req e)

module _ {Req Resp Chunk : Type 0} where
  unfoldable pub apply_before : List (Interceptor Req Resp Chunk) → Req → Checked Req
  unfolding run_before unless_failed
  apply_before [] req = (none, req)
  apply_before (ic ∷ chain) req =
      unless_failed (run_before ic.before_request req) (apply_before chain)

  unfoldable pub apply_after : List (Interceptor Req Resp Chunk) → Req → Reply Resp → Reply Resp
  unfolding run_after
  apply_after [] req r = r
  apply_after (ic ∷ chain) req r = apply_after chain req (run_after ic.after_response req r)

  unfoldable pub apply_after_stream_chunk :
      List (Interceptor Req Resp Chunk) → Req → Chunk → Checked Chunk
  unfolding run_chunk unless_failed
  apply_after_stream_chunk [] req chunk = (none, chunk)
  apply_after_stream_chunk (ic ∷ chain) req chunk =
      unless_failed (run_chunk ic.after_stream_chunk req chunk) (apply_after_stream_chunk chain req)

  unfoldable pub apply_after_stream_done :
      List (Interceptor Req Resp Chunk) → Req → Option Error → Option Error
  unfolding run_done
  apply_after_stream_done [] req e = e
  apply_after_stream_done (ic ∷ chain) req e =
      apply_after_stream_done chain req (run_done ic.after_stream_done req e)
