-- ===== src/Engine/History/Log.antt =====
-- internal/engine/history.go: what the ring, the queue and the queries hold after any operations.
use ao_eo.Base.{
  ℕ, zero, suc, ◌≤◌, ◌<◌, ◌≡◌, refl, sym, ◌∙◌, String, Bool, true, false, List, [], ◌∷◌, ◌++◌,
  length, length-append, length-replicate, replicate, take, Option, none, some, Outcome, panic,
  ring_write, Holds, ring_write-Holds, ring_list-take, ltb, str_eq, ℤ, pos, negsuc, arith, ltb→lt,
  if◌then◌else◌,
}
use ao_eo.Engine.History.{
  CallRecord, Storage, History, ring_size, new_history, set_storage, queue_cap, offer, persist,
  record_call, worker_receive, close, clear, in_memory, queried, records, has_tag, keep_if,
  records_by_tag, records_by_provider, zero_record,
}

-- What threads do to a history, in the order in which its mutex lets them.
pub data Op : Type 0 where
  add : CallRecord → Op
  receive : Op
  wipe : Op
  attach : Storage → Op
  shut : Op

abbrev pub apply_op : Op → History → History
apply_op (add r) h = (record_call r h).1
apply_op receive h = worker_receive h
apply_op wipe h = clear h
apply_op (attach s) h = set_storage s h
apply_op shut h = close h

abbrev pub run_ops : List Op → History → History
run_ops [] h = h
run_ops (op ∷ ops) h = run_ops ops (apply_op op h)

-- The abstract log, newest first, that the operations write.
abbrev pub log_op : Op → List CallRecord → List CallRecord
log_op (add r) log = r ∷ log
log_op receive log = log
log_op wipe log = []
log_op (attach s) log = log
log_op shut log = log

abbrev pub log_ops : List Op → List CallRecord → List CallRecord
log_ops [] log = log
log_ops (op ∷ ops) log = log_ops ops (log_op op log)

record Tracks (size : ℕ) (h : History) (log : List CallRecord) : Type 0 where
  pub same_size : h.max_size ≡ size
  pub holds : Holds zero_record size h.ring log
  pub bounded : length h.queue ≤ queue_cap

empty_Holds :
    (size n : ℕ)
    → 0 < size
    → n ≡ size
    → Holds zero_record size (record { buf = replicate n zero_record; head = 0; count = 0 }) []
empty_Holds size n p e = record {
  size_pos = p;
  full_array = length-replicate n zero_record ∙ e;
  head_lt = p;
  counted = omega arith;
  entries = λ i h. absurd (omega arith);
}

ring_size-pos : (n : ℤ) → 0 < ring_size n
unfolding ring_size
ring_size-pos (pos zero) = omega arith
ring_size-pos (pos (suc n)) = omega arith
ring_size-pos (negsuc n) = omega arith

if-Tracks :
    (size : ℕ) (b : Bool) (x y : Outcome (Unit {0}) × History) (log : List CallRecord)
    → Tracks size x.1 log
    → Tracks size y.1 log
    → Tracks size (if b then x else y).1 log
if-Tracks size true x y log t u = t
if-Tracks size false x y log t u = u

queued-Tracks :
    (size : ℕ) (b : Bool) (r : CallRecord) (h : History) (log : List CallRecord)
    → b ≡ ltb (length h.queue) queue_cap
    → Tracks size h log
    → Tracks size (if b then record h { queue = h.queue ++ r ∷ [] } else h) log
queued-Tracks size true r h log e t = record {
  same_size = t.same_size;
  holds = t.holds;
  bounded =
      omega (arith, length-append h.queue (r ∷ []), ltb→lt (length h.queue) queue_cap (sym e));
}
queued-Tracks size false r h log e t = t

offer-Tracks :
    (size : ℕ) (r : CallRecord) (h : History) (log : List CallRecord)
    → Tracks size h log
    → Tracks size (offer r h).1 log
unfolding offer
offer-Tracks size r h log t =
    if-Tracks size h.closed _ _ log t
      (queued-Tracks size (ltb (length h.queue) queue_cap) r h log refl t)

written-Tracks :
    (size : ℕ) (r : CallRecord) (h : History) (log : List CallRecord)
    → Tracks size h log
    → Tracks size (record h { ring = ring_write zero_record h.max_size r h.ring }) (r ∷ log)
written-Tracks size r h log t = record {
  same_size = t.same_size;
  holds = rw t.same_size (ring_write-Holds zero_record size r h.ring log t.holds);
  bounded = t.bounded;
}

stored-Tracks :
    (size : ℕ) (o : Option Storage) (r : CallRecord) (h : History) (log : List CallRecord)
    → Tracks size h log
    → Tracks size (persist o r h).1 log
stored-Tracks size none r h log t = t
stored-Tracks size (some s) r h log t = offer-Tracks size r h log t

record_call-Tracks :
    (size : ℕ) (r : CallRecord) (h : History) (log : List CallRecord)
    → Tracks size h log
    → Tracks size (record_call r h).1 (r ∷ log)
unfolding record_call
record_call-Tracks size r h log t =
    stored-Tracks size h.storage r _ (r ∷ log) (written-Tracks size r h log t)

received-Tracks :
    (size : ℕ) (q : List CallRecord) (h : History) (log : List CallRecord)
    → length q ≤ queue_cap
    → Tracks size h log
    → Tracks size (elim q as (λ _. History) [ [] ↦ h | r ∷ rest ↦ record h { queue = rest } ]) log
received-Tracks size [] h log b t = t
received-Tracks size (r ∷ rest) h log b t = record {
  same_size = t.same_size;
  holds = t.holds;
  bounded = omega arith;
}

worker_receive-Tracks :
    (size : ℕ) (h : History) (log : List CallRecord)
    → Tracks size h log
    → Tracks size (worker_receive h) log
unfolding worker_receive
worker_receive-Tracks size h log t = received-Tracks size h.queue h log t.bounded t

apply_op-Tracks :
    (size : ℕ) (op : Op) (h : History) (log : List CallRecord)
    → Tracks size h log
    → Tracks size (apply_op op h) (log_op op log)
unfolding clear set_storage close
apply_op-Tracks size (add r) h log t = record_call-Tracks size r h log t
apply_op-Tracks size receive h log t = worker_receive-Tracks size h log t
apply_op-Tracks size wipe h log t = record {
  same_size = t.same_size;
  holds = empty_Holds size (length h.ring.buf) t.holds.size_pos t.holds.full_array;
  bounded = t.bounded;
}
apply_op-Tracks size (attach s) h log t = record {
  same_size = t.same_size;
  holds = t.holds;
  bounded = t.bounded;
}
apply_op-Tracks size shut h log t = record {
  same_size = t.same_size;
  holds = t.holds;
  bounded = t.bounded;
}

run_ops-Tracks :
    (size : ℕ) (ops : List Op) (h : History) (log : List CallRecord)
    → Tracks size h log
    → Tracks size (run_ops ops h) (log_ops ops log)
run_ops-Tracks size [] h log t = t
run_ops-Tracks size (op ∷ ops) h log t =
    run_ops-Tracks size ops (apply_op op h) (log_op op log) (apply_op-Tracks size op h log t)

new_history-Tracks : (n : ℤ) → Tracks (ring_size n) (new_history n) []
unfolding new_history
new_history-Tracks n = record {
  same_size = refl;
  holds = empty_Holds (ring_size n) (ring_size n) (ring_size-pos n) refl;
  bounded = omega arith;
}

reached-Tracks :
    (n : ℤ) (ops : List Op) → Tracks (ring_size n) (run_ops ops (new_history n)) (log_ops ops [])
reached-Tracks n ops = run_ops-Tracks (ring_size n) ops (new_history n) [] (new_history-Tracks n)

tracked_in_memory :
    (size : ℕ) (h : History) (log : List CallRecord)
    → Tracks size h log
    → in_memory h ≡ take size log
unfolding in_memory
tracked_in_memory size h log t = rw t.same_size (ring_list-take zero_record size h.ring log t.holds)

-- Whatever records, wipes, worker receives and a close happened, in any order, the ring of a new
-- history gives the newest `ring_size n` records since the last wipe, newest first.
pub in_memory-take :
    (n : ℤ) (ops : List Op)
    → in_memory (run_ops ops (new_history n)) ≡ take (ring_size n) (log_ops ops [])
in_memory-take n ops = tracked_in_memory (ring_size n) _ _ (reached-Tracks n ops)

-- After any operations on a new history, Records, RecordsByTag and RecordsByProvider give what the
-- storage answers, and where there is none, or it fails, the newest `ring_size n` records of the
-- log, those with the tag, and those of the provider, newest first.
pub queries_refine :
    (n : ℤ) (ops : List Op) (key : String)
    → let h = run_ops ops (new_history n) in
      let newest = take (ring_size n) (log_ops ops []) in
      (records h ≡ queried h.storage (λ s. s.get_calls (ring_size n)) newest)
      × (records_by_tag key h
          ≡ queried h.storage
              (λ s. s.get_calls_by_tag key (ring_size n))
              (keep_if (λ r. has_tag key r.tags) newest))
      × (records_by_provider key h
          ≡ queried h.storage
              (λ s. s.get_calls_by_provider key (ring_size n))
              (keep_if (λ r. str_eq r.provider key) newest))
unfolding records records_by_tag records_by_provider
queries_refine n ops key =
    let same = (reached-Tracks n ops).same_size in
    let newest = in_memory-take n ops in
    (rw (newest, same) refl, rw (newest, same) refl, rw (newest, same) refl)

-- The queue to the storage never holds more than 256 records: Record drops what does not fit.
pub queue-bounded : (n : ℤ) (ops : List Op) → length (run_ops ops (new_history n)).queue ≤ queue_cap
queue-bounded n ops = (reached-Tracks n ops).bounded

-- With a storage attached, Record panics once the history is closed, though by then the ring has
-- the record: the send goes to a closed channel.
pub record_call-closed :
    (n : ℤ) (ops : List Op) (s : Storage) (r : CallRecord)
    → let h = close (set_storage s (run_ops ops (new_history n))) in
      ((record_call r h).0 ≡ panic "send on closed channel")
      × (in_memory (record_call r h).1 ≡ take (ring_size n) (r ∷ log_ops ops []))
unfolding record_call offer close set_storage
record_call-closed n ops s r = (
  refl,
  tracked_in_memory (ring_size n) _ _ (
      record_call-Tracks (ring_size n) r (close (set_storage s (run_ops ops (new_history n))))
        (log_ops ops [])
        (apply_op-Tracks (ring_size n) shut _ (log_ops ops [])
          (apply_op-Tracks (ring_size n) (attach s) _ (log_ops ops []) (reached-Tracks n ops)))),
)
