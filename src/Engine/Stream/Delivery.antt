-- ===== src/Engine/Stream/Delivery.antt =====
-- internal/engine/stream.go: what the goroutine of a stream hands on.
use mathlib.Core.List.{append-nil}
use ao_eo.Base.{◌≡◌, refl, ap, ◌∙◌, Bool, true, List, [], ◌∷◌, ◌++◌, Option, none, some, Error}
use ao_eo.Core.Types.{Request, StreamReply}
use ao_eo.Core.Interceptor.{apply_after_stream_chunk}
use ao_eo.Engine.Stream.{
  Chain, Turn, cancelled, closed, received, Pumped, pump, last_sent, hand_on, after_hooks,
  on_message, error_reply,
}

module _ (chain : Chain) (req : Request) where
  -- Messages without an error that every hook lets pass
  abbrev pub AllPass : List StreamReply → Type 0
  AllPass [] = Unit {0}
  AllPass (m ∷ ms) =
      (m.error ≡ none) × ((apply_after_stream_chunk chain req m.chunk).0 ≡ none) × AllPass ms

  -- The messages as the hooks leave them
  unfoldable pub hooked : List StreamReply → List StreamReply
  hooked [] = []
  hooked (m ∷ ms) = record m { chunk = (apply_after_stream_chunk chain req m.chunk).1 } ∷ hooked ms

  -- The turns in which messages are received and taken
  unfoldable pub delivered : List StreamReply → List Turn → List Turn
  delivered [] turns = turns
  delivered (m ∷ ms) turns = received m true ∷ delivered ms turns

  abbrev pub behind : List StreamReply → Pumped → Pumped
  behind ms rest = record rest { sent = ms ++ rest.sent }

  after_hooks-pass :
      (m : StreamReply) (rest : Pumped)
      → (apply_after_stream_chunk chain req m.chunk).0 ≡ none
      → after_hooks (apply_after_stream_chunk chain req m.chunk) true m rest
        ≡ hand_on true (record m { chunk = (apply_after_stream_chunk chain req m.chunk).1 }) rest
  after_hooks-pass m rest h = rw (h, after_hooks)

  pump-received :
      (m : StreamReply) (taken : Bool) (turns : List Turn)
      → m.error ≡ none
      → pump chain req (received m taken ∷ turns)
        ≡ after_hooks (apply_after_stream_chunk chain req m.chunk) taken m (pump chain req turns)
  unfolding pump
  pump-received m taken turns h =
      ap
        (λ o.
          on_message o (apply_after_stream_chunk chain req m.chunk) taken m (pump chain req turns))
        h

  -- Messages that pass are handed on, as the hooks leave them, in front of what the later turns give.
  pub pump-delivered :
      (ms : List StreamReply) (turns : List Turn)
      → AllPass ms
      → pump chain req (delivered ms turns) ≡ behind (hooked ms) (pump chain req turns)
  unfolding pump delivered hooked
  pump-delivered [] turns h = refl
  pump-delivered (m ∷ ms) turns h =
      pump-received m true (delivered ms turns) h.0
      ∙ after_hooks-pass m _ h.1
      ∙ (ap (hand_on true (record m { chunk = (apply_after_stream_chunk chain req m.chunk).1 }))
          (pump-delivered ms turns h.2))

  pump-refused :
      (m : StreamReply) (turns : List Turn) (e : Error)
      → m.error ≡ none
      → (apply_after_stream_chunk chain req m.chunk).0 ≡ some e
      → pump chain req (received m true ∷ turns) ≡ last_sent true (error_reply e) (some e)
  pump-refused m turns e fine h = pump-received m true turns fine ∙ rw (h, after_hooks)

  abbrev pub ends : List StreamReply → Option Error → Pumped
  ends sent e = record { sent = sent; final_err = e; left = true }

  -- After messages that pass, each handed on once, in order and as the hooks leave it: the close of
  -- the provider's channel ends the stream without an error, the end of the context with its error
  -- and no further message, a message with an error with that message as the last one, and a chunk
  -- that a hook refuses with the hook's error as the last one.
  pub pump-Ends :
      (ms : List StreamReply) (turns : List Turn) (e e' e'' : Error) (bad worse : StreamReply)
      → AllPass ms
      → bad.error ≡ some e'
      → worse.error ≡ none
      → (apply_after_stream_chunk chain req worse.chunk).0 ≡ some e''
      → (pump chain req (delivered ms (closed ∷ turns)) ≡ ends (hooked ms) none)
        × (pump chain req (delivered ms (cancelled e ∷ turns)) ≡ ends (hooked ms) (some e))
        × (pump chain req (delivered ms (received bad true ∷ turns))
            ≡ ends (hooked ms ++ bad ∷ []) (some e'))
        × (pump chain req (delivered ms (received worse true ∷ turns))
            ≡ ends (hooked ms ++ error_reply e'' ∷ []) (some e''))
  unfolding pump
  pump-Ends ms turns e e' e'' bad worse pass is_bad fine refused =
      let bad_last =
        ap
          (λ o. behind (hooked ms) (
            on_message o (apply_after_stream_chunk chain req bad.chunk) true bad
              (pump chain req turns)))
          is_bad in
      let worse_last = ap (behind (hooked ms)) (pump-refused worse turns e'' fine refused) in
      (
        pump-delivered ms (closed ∷ turns) pass ∙ ap (λ s. ends s none) (append-nil _),
        pump-delivered ms (cancelled e ∷ turns) pass ∙ ap (λ s. ends s (some e)) (append-nil _),
        pump-delivered ms (received bad true ∷ turns) pass ∙ bad_last,
        pump-delivered ms (received worse true ∷ turns) pass ∙ worse_last,
      )
