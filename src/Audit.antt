-- ===== src/Audit.antt =====
-- internal/audit/audit.go with internal/redact/redact.go: the recorder that gives each row of an
-- order its number. What it calls of other packages is a parameter: regular expressions, the case
-- and trimming of texts, the encoding of a row, and the writer. The lock and the attributes of the
-- tracing span are left out.
pub mod Numbers
pub mod Redaction
pub mod Written
mod Examples
use rzp_rebound.Prelude.{
  String, Bool, ◌==◌, if◌then◌else◌, Option, none, some, List, [], ◌∷◌, ◌++◌, Dict, insert,
  lookup_or, contains, ℤ, pos, negsuc, ◌+ℤ◌, wrap64,
}
use rzp_rebound.Time.{Instant}

abbrev pub kind_classified : String
kind_classified = "classified"

abbrev pub kind_policy_evaluated : String
kind_policy_evaluated = "policy_evaluated"

abbrev pub kind_action_skipped : String
kind_action_skipped = "action_skipped"

abbrev pub kind_intervention_applied : String
kind_intervention_applied = "intervention_applied"

abbrev pub kind_escalation_raised : String
kind_escalation_raised = "escalation_raised"

abbrev pub kind_promise_logged : String
kind_promise_logged = "promise_logged"

abbrev pub marker : String
marker = "[redacted]"

abbrev card_like : String
card_like = "\\d(?:[ -]?\\d){12,}"

abbrev key_like : String
key_like = "rzp_(?:test|live)_[A-Za-z0-9]{6,}"

unfoldable pub redacted_keys : List String
redacted_keys =
    "api_key" ∷ "authorization" ∷ "card" ∷ "card_number" ∷ "contact" ∷ "customer_contact"
    ∷ "customer_email" ∷ "customer_phone" ∷ "cvv" ∷ "email" ∷ "expiry" ∷ "key" ∷ "key_id"
    ∷ "key_secret" ∷ "pan" ∷ "phone" ∷ "razorpay_key_id" ∷ "razorpay_key_secret" ∷ "secret"
    ∷ "token" ∷ []

pub record Event : Type 0 where
  pub order_id : String
  pub kind : String
  pub class : String
  pub proposed_action : String
  pub policy_verdict : String
  pub policy_rule : String
  pub detail : Dict String

-- The Record of the source; the instant stands for its text.
pub record Row : Type 0 where
  pub sequence : ℤ
  pub order_id : String
  pub kind : String
  pub class : String
  pub proposed_action : String
  pub policy_verdict : String
  pub policy_rule : String
  pub trace_id : String
  pub span_id : String
  pub recorded_at : Instant
  pub detail : Dict String

-- The packages that the recorder calls. `replace_all` takes a pattern, a text and what replaces a
-- match; `marshal` and `write` answer an error; a write may depend on the rows written before.
pub record Services : Type 0 where
  pub replace_all : String → String → String → String
  pub to_lower : String → String
  pub trim_space : String → String
  pub marshal : Row → Option String
  pub write : List Row → Row → Option String

-- `rows` is what the writer has taken.
pub record Recorder : Type 0 where
  pub seq : Dict ℤ
  pub rows : List Row

abbrev pub new_recorder : Recorder
new_recorder = record { seq = []; rows = [] }

pub data RecordError : Type 0 where
  no_order_id : RecordError
  no_kind : String → RecordError
  not_encoded : String → String → RecordError
  not_written : String → String → RecordError

unfoldable pub redact_value : Services → String → String
redact_value sv s =
    if s == "" then s else sv.replace_all key_like (sv.replace_all card_like s marker) marker

unfoldable pub is_redacted_key : Services → String → Bool
is_redacted_key sv key = contains redacted_keys (sv.to_lower (sv.trim_space key))

-- An entry at a time; the nil map that stands for an empty one is the empty list.
unfoldable pub redact_detail : Services → Dict String → Dict String
redact_detail sv [] = []
redact_detail sv ((key, value) ∷ detail) =
    (key, if is_redacted_key sv key then marker else redact_value sv value)
    ∷ redact_detail sv detail

-- r.seq[orderID]
unfoldable pub seq_of : Recorder → String → ℤ
unfolding lookup_or
seq_of r id = lookup_or (pos 0) id r.seq

abbrev pub put_seq : Recorder → String → ℤ → Recorder
put_seq r id n = record r { seq = insert id n r.seq }

unfoldable pub bump : ℤ → ℤ
unfolding wrap64 ◌+ℤ◌
bump n = wrap64 (n +ℤ pos 1)

-- The row of an event, with its number. `span` holds the ids of a valid tracing span.
unfoldable pub row_of : Services → ℤ → Instant → Option (String × String) → Event → Row
unfolding redact_detail redact_value
row_of sv number now span ev = record {
  sequence = number;
  order_id = ev.order_id;
  kind = ev.kind;
  class = redact_value sv ev.class;
  proposed_action = redact_value sv ev.proposed_action;
  policy_verdict = redact_value sv ev.policy_verdict;
  policy_rule = redact_value sv ev.policy_rule;
  trace_id = elim span [ none ↦ "" | some ids ↦ ids.0 ];
  span_id = elim span [ none ↦ "" | some ids ↦ ids.1 ];
  recorded_at = now;
  detail = redact_detail sv ev.detail;
}

-- r.seq[orderID]--
unfoldable pub unbump : ℤ → ℤ
unfolding wrap64 ◌+ℤ◌
unbump n = wrap64 (n +ℤ negsuc 0)

-- Record past its two checks: the number is taken, and given back if the row does not go down.
unfoldable pub append_row :
    Services → Recorder → Instant → Option (String × String) → Event → Recorder × Option RecordError
append_row sv r now span ev =
    let number = bump (seq_of r ev.order_id) in
    let taken = put_seq r ev.order_id number in
    let back = put_seq taken ev.order_id (unbump number) in
    let row = row_of sv number now span ev in
    elim (sv.marshal row) [
      | some err ↦ (back, some (not_encoded ev.order_id err))
      | none ↦ elim (sv.write r.rows row) [
        | some err ↦ (back, some (not_written ev.order_id err))
        | none ↦ (record taken { rows = r.rows ++ row ∷ [] }, none)
      ]
    ]

-- r.Record(ctx, ev), without the row that it returns besides the error
unfoldable pub record_event :
    Services → Recorder → Instant → Option (String × String) → Event → Recorder × Option RecordError
record_event sv r now span ev =
    if ev.order_id == ""
    then (r, some no_order_id)
    else if ev.kind == ""
    then (r, some (no_kind ev.order_id))
    else append_row sv r now span ev
