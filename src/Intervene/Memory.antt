-- ===== src/Intervene/Memory.antt =====
-- The ledger and the sinks of internal/intervene/promise.go and escalation.go: those that keep their
-- records in memory, and the sink that writes lines. The encoder and the writer are parameters.
use rzp_rebound.Prelude.{
  String, ◌<>◌, ◌≡◌, sym, ◌∙◌, Option, none, some, List, [], ◌∷◌, ◌++◌, append-nil, append_assoc,
}
use rzp_rebound.Intervene.Calls.{PromiseRecord, Escalation}

abbrev pub MemoryPromiseLedger : Type 0
MemoryPromiseLedger = List PromiseRecord

-- l.Log, which never fails
unfoldable memory_log : MemoryPromiseLedger → PromiseRecord → MemoryPromiseLedger × Option String
memory_log l rec = (l ++ rec ∷ [], none)

abbrev pub MemorySink : Type 0
MemorySink = List Escalation

-- s.Escalate, which never fails
unfoldable memory_escalate : MemorySink → Escalation → MemorySink × Option String
memory_escalate s esc = (s ++ esc ∷ [], none)

-- `written` is what the writer of a sink has taken.
record WriterSink : Type 0 where
  written : List String

-- The encoder answers an error or the line, and the writer an error.
unfoldable sink_escalate :
    (Escalation → Option String)
    → (Escalation → String)
    → (List String → String → Option String)
    → WriterSink
    → Escalation
    → WriterSink × Option String
sink_escalate marshal line write s esc = elim (marshal esc) [
  | some e ↦
      (s, some ("intervene: encode the escalation for " <> (esc.risk_item_id <> (": " <> e))))
  | none ↦ elim (write s.written (line esc <> "\n")) [
    | some e ↦
        (s, some ("intervene: write the escalation for " <> (esc.risk_item_id <> (": " <> e))))
    | none ↦ (record s { written = s.written ++ (line esc <> "\n") ∷ [] }, none)
  ]
]

-- Everything logged, one after another.
memory_log_all : MemoryPromiseLedger → List PromiseRecord → MemoryPromiseLedger
memory_log_all l [] = l
memory_log_all l (rec ∷ recs) = memory_log_all (memory_log l rec).0 recs

-- The ledger holds what was logged, in order.
memory_log_all_append :
    (l : MemoryPromiseLedger) (recs : List PromiseRecord) → memory_log_all l recs ≡ l ++ recs
unfolding memory_log_all memory_log
memory_log_all_append l [] = sym (append-nil l)
memory_log_all_append l (rec ∷ recs) =
    memory_log_all_append (l ++ rec ∷ []) recs ∙ append_assoc l (rec ∷ []) recs
