-- ===== src/Audit/Redaction.antt =====
-- What the recorder keeps out of a row's detail.
use rzp_rebound.Prelude.{
  sym, ◌∙◌, Bool, Bool-cases, OneOf, OneOf-contains, eq_iff, false≢true, String, ◌≡◌, refl, inl,
  inr, true, false, ◌==◌, if◌then◌else◌, Option, some, [], ◌∷◌, All, All-append, Dict, Option-cases,
  ℤ,
}
use rzp_rebound.Time.{Instant}
use rzp_rebound.Audit.{
  Services, Event, Row, Recorder, marker, card_like, key_like, redacted_keys, is_redacted_key,
  redact_value, redact_detail, row_of, append_row, record_event, no_order_id, no_kind, bump, seq_of,
}

-- Nothing in the text looks like a card number or like a key of the gateway.
abbrev pub Clean : (String → String → Bool) → String → Type 0
Clean finds text = (finds card_like text ≡ false) × (finds key_like text ≡ false)

-- What the passes need of the regular expressions: a scan for each pattern that finds nothing in the
-- empty text, in the marker, or in what the pass with its pattern leaves of a text; putting the marker for a
-- key brings no card number about.
pub record Scans (sv : Services) (finds : String → String → Bool) : Type 0 where
  pub empty : Clean finds ""
  pub marked : Clean finds marker
  pub no_card : (text : String) → finds card_like (sv.replace_all card_like text marker) ≡ false
  pub no_key : (text : String) → finds key_like (sv.replace_all key_like text marker) ≡ false
  pub kept :
      (text : String)
      → finds card_like text ≡ false
      → finds card_like (sv.replace_all key_like text marker) ≡ false

-- An entry of a detail is clean, and carries the marker alone under a key that is on the list, in
-- whatever case and with whatever space around it.
abbrev pub Scrubbed : Services → (String → String → Bool) → String × String → Type 0
Scrubbed sv finds entry =
    Clean finds entry.1
    × (OneOf (sv.to_lower (sv.trim_space entry.0)) redacted_keys → entry.1 ≡ marker)

-- Every free text of a row is clean; its order, its kind and its ids are written as they are.
pub record IsScrubbed (sv : Services) (finds : String → String → Bool) (row : Row) : Type 0 where
  pub detail : All (Scrubbed sv finds) row.detail
  pub class : Clean finds row.class
  pub proposed_action : Clean finds row.proposed_action
  pub policy_verdict : Clean finds row.policy_verdict
  pub policy_rule : Clean finds row.policy_rule

module _ (sv : Services) (finds : String → String → Bool) (scans : Scans sv finds) where
  redact_value-Clean : (text : String) → Clean finds (redact_value sv text)
  unfolding redact_value
  redact_value-Clean text = elim (Bool-cases (text == "")) [
    | inl e ↦ rw (e, redact_value, (eq_iff text "").0 e) scans.empty
    | inr e ↦ rw (e, redact_value) (scans.kept _ (scans.no_card text), scans.no_key _)
  ]

  entry-Scrubbed :
      (key value : String)
      → Scrubbed sv finds (key, if is_redacted_key sv key then marker else redact_value sv value)
  unfolding is_redacted_key
  entry-Scrubbed key value = elim (Bool-cases (is_redacted_key sv key)) [
    | inl e ↦ rw e (scans.marked, λ listed. refl)
    | inr e ↦ rw e (
      redact_value-Clean value,
      λ listed. absurd (false≢true (sym e ∙ OneOf-contains redacted_keys _ listed)),
    )
  ]

  redact_detail-Scrubbed :
      (detail : Dict String) → All (Scrubbed sv finds) (redact_detail sv detail)
  unfolding redact_detail
  redact_detail-Scrubbed [] = tt
  redact_detail-Scrubbed ((key, value) ∷ detail) =
      (entry-Scrubbed key value, redact_detail-Scrubbed detail)

  row_of-IsScrubbed :
      (number : ℤ) (now : Instant) (span : Option (String × String)) (ev : Event)
      → IsScrubbed sv finds (row_of sv number now span ev)
  unfolding row_of
  row_of-IsScrubbed number now span ev = record {
    detail = redact_detail-Scrubbed ev.detail;
    class = redact_value-Clean ev.class;
    proposed_action = redact_value-Clean ev.proposed_action;
    policy_verdict = redact_value-Clean ev.policy_verdict;
    policy_rule = redact_value-Clean ev.policy_rule;
  }

append_row-IsScrubbed :
    (sv : Services) (finds : String → String → Bool) (r : Recorder) (now : Instant)
    (span : Option (String × String)) (ev : Event)
    → Scans sv finds
    → All (IsScrubbed sv finds) r.rows
    → All (IsScrubbed sv finds) (append_row sv r now span ev).0.rows
unfolding append_row
append_row-IsScrubbed sv finds r now span ev scans h =
    let row = row_of sv (bump (seq_of r ev.order_id)) now span ev in
    let clean = row_of-IsScrubbed sv finds scans (bump (seq_of r ev.order_id)) now span ev in
    elim (Option-cases (sv.marshal row)) [
      | inl m ↦ elim (Option-cases (sv.write r.rows row)) [
        | inl w ↦
            rw (m, w, append_row) (All-append (IsScrubbed sv finds) r.rows (row ∷ []) h (clean, tt))
        | inr (err, w) ↦ rw (m, w, append_row) h
      ]
      | inr (err, m) ↦ rw (m, append_row) h
    ]

-- Whatever an event carries: if every row of the trail was scrubbed, every row is after it. In a
-- scrubbed row a scan finds no card number and no key of the gateway in the values of the detail,
-- the class, the action, the verdict and the rule, and a detail under a key that is on the list is
-- the marker. A scan is taken to find nothing in what a replacement by the marker leaves.
pub record_event-IsScrubbed :
    (sv : Services) (finds : String → String → Bool) (r : Recorder) (now : Instant)
    (span : Option (String × String)) (ev : Event)
    → Scans sv finds
    → All (IsScrubbed sv finds) r.rows
    → All (IsScrubbed sv finds) (record_event sv r now span ev).0.rows
unfolding record_event
record_event-IsScrubbed sv finds r now span ev scans h =
    let next = append_row-IsScrubbed sv finds r now span ev scans h in
    elim (ev.order_id == "")
      as (λ b.
        All (IsScrubbed sv finds)
          (if b
            then (r, some no_order_id)
            else if ev.kind == ""
            then (r, some (no_kind ev.order_id))
            else append_row sv r now span ev).0.rows) [
              | true ↦ h
              | false ↦
                  elim (ev.kind == "")
                    as (λ b.
                      All (IsScrubbed sv finds)
                        (if b
                          then (r, some (no_kind ev.order_id))
                          else append_row sv r now span ev).0.rows) [ true ↦ h | false ↦ next ]
            ]
