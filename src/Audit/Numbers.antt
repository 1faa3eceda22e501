-- ===== src/Audit/Numbers.antt =====
-- The rows of an order are numbered 1, 2, 3 and on, without a gap, errors or not.
use rzp_rebound.Prelude.{
  ℕ, suc, ◌^◌, ◌≤◌, ◌<◌, String, ◌≡◌, refl, ◌∙◌, inl, inr, true, false, ◌==◌, eq_iff, if◌then◌else◌,
  Option, some, List, [], ◌∷◌, ◌++◌, length, lookup_or, lookup-insert, append_assoc, ℤ, pos, ◌+ℤ◌,
  wrap64, arith, Option-cases, append-nil,
}
use rzp_rebound.Time.{Instant}
use rzp_rebound.Audit.{
  Event, Row, Services, Recorder, no_order_id, no_kind, new_recorder, seq_of, put_seq, bump, unbump,
  row_of, append_row, record_event,
}

-- How many of the rows are of the order.
abbrev pub count : String → List Row → ℕ
count id [] = 0
count id (r ∷ rs) = let rest = count id rs in if r.order_id == id then suc rest else rest

-- Each row's number is one more than the count of the rows of its order before it.
abbrev pub NumberedFrom : List Row → List Row → Type 0
NumberedFrom earlier [] = Unit
NumberedFrom earlier (r ∷ rs) =
    (r.sequence ≡ pos (suc (count r.order_id earlier))) × NumberedFrom (earlier ++ r ∷ []) rs

pub record IsNumbered (r : Recorder) : Type 0 where
  pub counted : (id : String) → seq_of r id ≡ pos (count id r.rows)
  pub numbered : NumberedFrom [] r.rows

count-append :
    (id : String) (rows : List Row) (row : Row)
    → count id (rows ++ row ∷ [])
      ≡ (if row.order_id == id then suc (count id rows) else count id rows)
count-append id [] row = ground arith
count-append id (r ∷ rs) row = ground (arith, count-append id rs row)

count-le : (id : String) (rows : List Row) → count id rows ≤ length rows
count-le id [] = omega arith
count-le id (r ∷ rs) = ground (arith, count-le id rs)

NumberedFrom-append :
    (earlier rows : List Row) (row : Row)
    → NumberedFrom earlier rows
    → row.sequence ≡ pos (suc (count row.order_id (earlier ++ rows)))
    → NumberedFrom earlier (rows ++ row ∷ [])
NumberedFrom-append earlier [] row h next = (rw append-nil at next, tt)
NumberedFrom-append earlier (r ∷ rs) row h next = (
  h.0,
  NumberedFrom-append (earlier ++ r ∷ []) rs row h.1 (rw (append_assoc earlier (r ∷ []) rs) next),
)

seq_of-put_seq :
    (r : Recorder) (id : String) (n : ℤ) (j : String)
    → seq_of (put_seq r id n) j ≡ (if id == j then n else seq_of r j)
unfolding seq_of lookup_or
seq_of-put_seq r id n j = ground (arith, lookup-insert id j n r.seq)

bump_small : (n : ℕ) → suc n < 2 ^ 63 → bump (pos n) ≡ pos (suc n)
unfolding bump wrap64 ◌+ℤ◌
bump_small n h = ground arith

unbump_small : (n : ℕ) → suc n < 2 ^ 63 → unbump (pos (suc n)) ≡ pos n
unfolding unbump wrap64 ◌+ℤ◌
unbump_small n h = ground arith

-- The recorder that gave a number back is in order, with the same rows.
back-IsNumbered :
    (r : Recorder) (id : String)
    → suc (length r.rows) < 2 ^ 63
    → IsNumbered r
    → IsNumbered (put_seq (put_seq r id (bump (seq_of r id))) id (unbump (bump (seq_of r id))))
unfolding seq_of lookup_or
back-IsNumbered r id small h = record {
  counted = λ j.
      let there = seq_of-put_seq r id (bump (seq_of r id)) j in
      let back =
        seq_of-put_seq (put_seq r id (bump (seq_of r id))) id (unbump (bump (seq_of r id))) j in
      let bound = count-le id r.rows in
      let up = bump_small (count id r.rows) (omega arith) in
      let down = unbump_small (count id r.rows) (omega arith) in
      let here = h.counted id in let other = h.counted j in ground (arith, eq_iff id j);
  numbered = h.numbered;
}

taken-IsNumbered :
    (r : Recorder) (row : Row)
    → suc (length r.rows) < 2 ^ 63
    → IsNumbered r
    → row.sequence ≡ bump (seq_of r row.order_id)
    → IsNumbered (record (put_seq r row.order_id (bump (seq_of r row.order_id))) {
      rows = r.rows ++ row ∷ [];
    })
unfolding seq_of lookup_or
taken-IsNumbered r row small h next =
    let bound = count-le row.order_id r.rows in
    let up : bump (seq_of r row.order_id) ≡ pos (suc (count row.order_id r.rows)) =
      rw (h.counted row.order_id) (bump_small (count row.order_id r.rows) (omega arith)) in
    record {
      counted = λ j.
          let there = seq_of-put_seq r row.order_id (bump (seq_of r row.order_id)) j in
          let more = count-append j r.rows row in
          let other = h.counted j in ground (arith, eq_iff row.order_id j);
      numbered = NumberedFrom-append [] r.rows row h.numbered (next ∙ up);
    }

-- The rows that an event writes carry the number that the order has reached.
append_row-IsNumbered :
    (sv : Services) (r : Recorder) (now : Instant) (span : Option (String × String)) (ev : Event)
    → suc (length r.rows) < 2 ^ 63
    → IsNumbered r
    → IsNumbered (append_row sv r now span ev).0
unfolding append_row row_of
append_row-IsNumbered sv r now span ev small h =
    let row = row_of sv (bump (seq_of r ev.order_id)) now span ev in
    let back = back-IsNumbered r ev.order_id small h in
    elim (Option-cases (sv.marshal row)) [
      | inl m ↦ elim (Option-cases (sv.write r.rows row)) [
        | inl w ↦ rw (m, w, append_row) (taken-IsNumbered r row small h refl)
        | inr (err, w) ↦ rw (m, w, append_row) back
      ]
      | inr (err, m) ↦ rw (m, append_row) back
    ]

-- Whatever an event is and whether its row is encoded and written or not: if the rows of every
-- order were numbered 1, 2, 3 and on, and each order's counter stood at its count of rows, both
-- still hold after it. The trail is taken to hold fewer than 2^63 - 1 rows.
pub record_event-IsNumbered :
    (sv : Services) (r : Recorder) (now : Instant) (span : Option (String × String)) (ev : Event)
    → suc (length r.rows) < 2 ^ 63
    → IsNumbered r
    → IsNumbered (record_event sv r now span ev).0
unfolding record_event
record_event-IsNumbered sv r now span ev small h =
    let next = append_row-IsNumbered sv r now span ev small h in
    elim (ev.order_id == "")
      as (λ b.
        IsNumbered
          (if b
            then (r, some no_order_id)
            else if ev.kind == ""
            then (r, some (no_kind ev.order_id))
            else append_row sv r now span ev).0) [
              | true ↦ h
              | false ↦
                  elim (ev.kind == "")
                    as (λ b.
                      IsNumbered
                        (if b
                          then (r, some (no_kind ev.order_id))
                          else append_row sv r now span ev).0) [ true ↦ h | false ↦ next ]
            ]

pub new_recorder-IsNumbered : IsNumbered new_recorder
unfolding seq_of lookup_or
new_recorder-IsNumbered = record { counted = λ id. refl; numbered = tt }
