-- ===== src/Audit/Examples.antt =====
-- The recorder at concrete events, with services that change no text, encode every row and refuse
-- every write past the second.
use rzp_rebound.Prelude.{
  Bool, Bool-cases, inl, inr, false, String, ◌≡◌, refl, ◌==◌, if◌then◌else◌, none, some, [], ◌∷◌,
  ltb, length, pos, insert, All, arith,
}
use rzp_rebound.Audit.{
  Event, Services, Recorder, new_recorder, record_event, redacted_keys, redact_value, redact_detail,
  is_redacted_key, bump, unbump, seq_of, append_row, kind_classified, marker,
}
use rzp_rebound.Audit.Numbers.{IsNumbered, new_recorder-IsNumbered, record_event-IsNumbered}
use rzp_rebound.Audit.Redaction.{Scans, IsScrubbed, record_event-IsScrubbed}

abbrev plain : Services
plain = record {
  replace_all = λ pattern text with. if text == "4111 1111 1111 1111" then with else text;
  to_lower = λ s. if s == "PAN" then "pan" else s;
  trim_space = λ s. s;
  marshal = λ row. none;
  write = λ rows row. if ltb (length rows) 2 then none else some "disk full";
}

abbrev seen : Event
seen = record {
  order_id = "order_1";
  kind = kind_classified;
  class = "soft";
  proposed_action = "";
  policy_verdict = "";
  policy_rule = "";
  detail = ("PAN", "4111") ∷ ("note", "4111 1111 1111 1111") ∷ [];
}

abbrev once : Recorder
once = (record_event plain new_recorder 5 none seen).0

abbrev twice : Recorder
twice = (record_event plain once 6 (some ("t", "s")) seen).0

once-IsNumbered : IsNumbered once
once-IsNumbered =
    record_event-IsNumbered plain new_recorder 5 none seen (omega arith) new_recorder-IsNumbered

twice_rows : length twice.rows ≡ 2
unfolding record_event append_row
twice_rows = refl

twice-IsNumbered : IsNumbered twice
unfolding record_event append_row
twice-IsNumbered =
    record_event-IsNumbered plain once 6 (some ("t", "s")) seen (omega arith) once-IsNumbered

-- The third write fails, and the counter stays at the two rows that went down.
record_event-IsNumbered_example : IsNumbered (record_event plain twice 7 none seen).0
unfolding record_event append_row
record_event-IsNumbered_example =
    record_event-IsNumbered plain twice 7 none seen (omega arith) twice-IsNumbered

third_seq : seq_of (record_event plain twice 7 none seen).0 "order_1" ≡ pos 2
unfolding record_event append_row seq_of bump unbump insert
third_seq = refl

abbrev finds : String → String → Bool
finds pattern text = text == "4111 1111 1111 1111"

cleaned :
    (text : String)
    → ((if text == "4111 1111 1111 1111" then marker else text) == "4111 1111 1111 1111") ≡ false
cleaned text = elim (Bool-cases (text == "4111 1111 1111 1111")) [
  | inl e ↦ rw e refl
  | inr e ↦ rw (e, e) refl
]

plain-Scans : Scans plain finds
plain-Scans = record {
  empty = (refl, refl);
  marked = (refl, refl);
  no_card = cleaned;
  no_key = cleaned;
  kept = λ text h. cleaned text;
}

record_event-IsScrubbed_example :
    All (IsScrubbed plain finds) (record_event plain new_recorder 5 none seen).0.rows
record_event-IsScrubbed_example =
    record_event-IsScrubbed plain finds new_recorder 5 none seen plain-Scans tt

scrubbed_detail : redact_detail plain seen.detail ≡ ("PAN", marker) ∷ ("note", marker) ∷ []
unfolding redact_detail is_redacted_key redact_value redacted_keys
scrubbed_detail = refl
