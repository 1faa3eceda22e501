-- ===== src/Audit/Written.antt =====
-- What an event leaves in the trail: its row, or an error and no row.
use rzp_rebound.Prelude.{
  String, ◌≡◌, refl, ◌⊎◌, inl, inr, ◌==◌, Option, none, some, [], ◌∷◌, ◌++◌, Option-cases,
  Bool-cases,
}
use rzp_rebound.Time.{Instant}
use rzp_rebound.Audit.{
  Event, Row, Services, Recorder, RecordError, bump, seq_of, row_of, append_row, record_event,
}

-- The row of the event went down, or an error says that none did.
abbrev pub Written : Recorder → Event → Recorder × Option RecordError → Type 0
Written r ev done =
    ((row : Row) × (done.0.rows ≡ r.rows ++ row ∷ [])
      × (row.order_id ≡ ev.order_id)
      × (row.kind ≡ ev.kind)
      × (done.1 ≡ none))
    ⊎ ((cause : RecordError) × (done.0.rows ≡ r.rows) × (done.1 ≡ some cause))

append_row-Written :
    (sv : Services) (r : Recorder) (now : Instant) (span : Option (String × String)) (ev : Event)
    → Written r ev (append_row sv r now span ev)
unfolding append_row row_of
append_row-Written sv r now span ev =
    let row = row_of sv (bump (seq_of r ev.order_id)) now span ev in
    elim (Option-cases (sv.marshal row)) [
      | inl m ↦ elim (Option-cases (sv.write r.rows row)) [
        | inl w ↦ rw (m, w, append_row) (inl (row, refl, refl, refl, refl))
        | inr (err, w) ↦ rw (m, w, append_row) (inr (_, refl, refl))
      ]
      | inr (err, m) ↦ rw (m, append_row) (inr (_, refl, refl))
    ]

pub record_event-Written :
    (sv : Services) (r : Recorder) (now : Instant) (span : Option (String × String)) (ev : Event)
    → Written r ev (record_event sv r now span ev)
unfolding record_event
record_event-Written sv r now span ev = elim (Bool-cases (ev.order_id == "")) [
  | inl e ↦ rw (e, record_event) (inr (_, refl, refl))
  | inr e ↦ elim (Bool-cases (ev.kind == "")) [
    | inl k ↦ rw (e, k, record_event) (inr (_, refl, refl))
    | inr k ↦ rw (e, k, record_event) (append_row-Written sv r now span ev)
  ]
]
