-- ===== src/Engine/Stream.antt =====
-- internal/engine/stream.go: the streaming calls, the goroutine that hands the chunks on, and
-- ParseSSE.
pub mod Delivery
pub mod Lines
pub mod Events
pub mod Holding
mod Tests
use ao_eo.Base.{
  ℕ, String, Bool, true, false, List, [], ◌∷◌, ◌++◌, get_elem?, Option, none, some, Outcome, ok,
  err, panic, Error, no_available_provider, if◌then◌else◌, str_eq, is_prefix, drop_chars, append,
}
use ao_eo.Core.Types.{Request, Response, Message, StreamChunk, StreamReply, Usage}
use ao_eo.Core.Interceptor.{
  Interceptor, apply_before, apply_after_stream_chunk, apply_after_stream_done,
}
use ao_eo.Engine.Scheduler.{
  Provider, Router, Scheduler, State, check_closed, acquire, release, request_for, pick_with_router,
}
use ao_eo.Engine.Scheduler.Fallback.{available_providers}

-- What Provider.ChatCompleteStream does: it gives a channel, an error, or it panics.
pub data Opened : Type 0 where
  opened : Opened
  not_opened : Error → Opened
  broken : String → Opened

-- How the call comes back: with an error, with a panic, or with a channel; then the goroutine runs
-- on the request copy.
pub data Call (W : Type 0) : Type 0 where
  refused : Error → State W → Call W
  crashed : String → State W → Call W
  streaming : Request → State W → Call W

abbrev pub Chain : Type 0
Chain = List (Interceptor Request Response StreamChunk)

module _ {W : Type 0} (opens : Provider W → Request → W → Opened × W) where
  abbrev pub when_opened : Opened → Request → State W → Call W
  when_opened opened req s = streaming req s
  when_opened (not_opened e) req s = refused e (release s)
  when_opened (broken r) req s = crashed r s

  abbrev pub unless_refused : Option Error → State W → Call W → Call W
  unless_refused (some e) s rest = refused e (release s)
  unless_refused none s rest = rest

  -- The slot is taken and the provider chosen; no deferred function gives the slot back here.
  unfoldable pub open_on : Scheduler W → Provider W → Request → State W → Call W
  unfolding request_for release
  open_on sch p req s =
      let before = apply_before sch.chain (request_for sch p req) in
      let start = opens p before.1 s.world in
      unless_refused before.0 s (when_opened start.0 before.1 (record s { world = start.1 }))

  -- PickPrimaryProvider, and the rest
  unfoldable pub open_primary : Scheduler W → List (Provider W) → Request → State W → Call W
  unfolding open_on
  open_primary sch [] req s = refused no_available_provider (release s)
  open_primary sch (p ∷ ps) req s = open_on sch p req s

  abbrev pub open_at : Scheduler W → Option (Provider W) → Request → State W → Call W
  open_at sch none req s = crashed "index out of range" s
  open_at sch (some p) req s = open_on sch p req s

  unfoldable pub open_picked : Scheduler W → Outcome ℕ → Request → State W → Call W
  unfolding open_on
  open_picked sch (ok i) req s = open_at sch (get_elem? sch.providers i) req s
  open_picked sch (err e) req s = refused e (release s)
  open_picked sch (panic r) req s = crashed r s

  abbrev pub unless_error : Option Error → State W → Call W → Call W
  unless_error (some e) s rest = refused e s
  unless_error none s rest = rest

  -- ChatCompleteStream
  unfoldable pub chat_complete_stream : Scheduler W → Request → State W → Call W
  unfolding open_primary check_closed acquire available_providers
  chat_complete_stream sch req s =
      let acquired = acquire sch s in
      let available = available_providers sch acquired.1 in
      unless_error (check_closed sch) s
        (unless_error acquired.0 acquired.1 (open_primary sch available.0 req available.1))

  -- chatCompleteStreamWithRouter
  unfoldable pub chat_complete_stream_with_router :
      Scheduler W → Router W → Request → State W → Call W
  unfolding open_picked check_closed acquire pick_with_router
  chat_complete_stream_with_router sch r req s =
      let acquired = acquire sch s in
      let picked = pick_with_router (record sch { router = some r }) req acquired.1.world in
      unless_error (check_closed sch) s (
        unless_error acquired.0 acquired.1
          (open_picked sch picked.0 req (record acquired.1 { world = picked.1 })))

-- What the selects of the goroutine find: the context done, the provider's channel closed, or a
-- message; of a message, whether it was handed on before the context was done.
pub data Turn : Type 0 where
  cancelled : Error → Turn
  closed : Turn
  received : StreamReply → Bool → Turn

-- What the goroutine has handed on, its finalErr, and whether it has left its loop
pub record Pumped : Type 0 where
  pub sent : List StreamReply
  pub final_err : Option Error
  pub left : Bool

abbrev pub no_message : Message
no_message = record {
  role = "";
  content = "";
  reasoning_content = "";
  name = "";
  tool_calls = [];
  tool_call_id = "";
}

-- core.StreamCompletionResponse{Err: err}
abbrev pub error_reply : Error → StreamReply
error_reply e = record {
  id = "";
  model = "";
  chunk = record { index = 0; delta = no_message; finish_reason = "" };
  usage = record { prompt_tokens = 0; completion_tokens = 0; total_tokens = 0 };
  error = some e;
}

abbrev pub last_sent : Bool → StreamReply → Option Error → Pumped
last_sent taken msg e = record { sent = if taken then msg ∷ [] else []; final_err = e; left = true }

abbrev pub hand_on : Bool → StreamReply → Pumped → Pumped
hand_on true msg rest = record rest { sent = msg ∷ rest.sent }
hand_on false msg rest = record { sent = []; final_err = none; left = true }

-- A chunk that the hooks let pass is handed on, and the loop goes on.
abbrev pub after_hooks : Option Error × StreamChunk → Bool → StreamReply → Pumped → Pumped
after_hooks (some e, chunk) taken msg rest = last_sent taken (error_reply e) (some e)
after_hooks (none, chunk) taken msg rest = hand_on taken (record msg { chunk = chunk }) rest

abbrev pub on_message :
    Option Error → Option Error × StreamChunk → Bool → StreamReply → Pumped → Pumped
on_message (some e) chunk taken msg rest = last_sent taken msg (some e)
on_message none chunk taken msg rest = after_hooks chunk taken msg rest

-- The loop of the goroutine
unfoldable pub pump : Chain → Request → List Turn → Pumped
pump chain req [] = record { sent = []; final_err = none; left = false }
pump chain req (cancelled e ∷ turns) = record { sent = []; final_err = some e; left = true }
pump chain req (closed ∷ turns) = record { sent = []; final_err = none; left = true }
pump chain req (received msg taken ∷ turns) =
    on_message msg.error (apply_after_stream_chunk chain req msg.chunk) taken msg
      (pump chain req turns)

module _ {W : Type 0} where
  -- The deferred functions run when the loop is left: the hooks, whose error is only logged, and the
  -- Release.
  unfoldable pub finish : Chain → Request → Pumped → State W → Option Error × State W
  unfolding release
  finish chain req pumped s =
      if pumped.left
      then (apply_after_stream_done chain req pumped.final_err, release s)
      else (none, s)

  -- A call with the turns of its goroutine
  unfoldable pub run_stream : Chain → List Turn → Call W → State W
  unfolding finish pump
  run_stream chain turns (refused e s) = s
  run_stream chain turns (crashed r s) = s
  run_stream chain turns (streaming req s) = (finish chain req (pump chain req turns) s).1

-- A line that the scanner gives, whether the context is live when it is read, and whether its chunk
-- is taken before the context is done
pub record Line : Type 0 where
  pub text : String
  pub live : Bool
  pub taken : Bool

-- The content of a data line
unfoldable pub data_of : String → Option String
unfolding is_prefix drop_chars
data_of line = if is_prefix "data: " line then some (drop_chars "data: " line) else none

-- `rest` is what the lines behind give.
abbrev pub emit : Option String → Bool → List String → List String
emit none taken rest = rest
emit (some content) taken rest =
    if str_eq content "[DONE]" then [] else if taken then content ∷ rest else []

-- ParseSSEWithContext: the contents of the chunks. The second argument is the text of the scanner's
-- error with whether its chunk is taken.
unfoldable pub parse_sse : List Line → Option (String × Bool) → List String
unfolding data_of
parse_sse [] none = []
parse_sse [] (some (e, taken)) =
    if taken then append "[SSE parse error: " (append e "]") ∷ [] else []
parse_sse (l ∷ lines) e =
    let rest = parse_sse lines e in if l.live then emit (data_of l.text) l.taken rest else []
