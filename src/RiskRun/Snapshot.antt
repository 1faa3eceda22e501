-- ===== src/RiskRun/Snapshot.antt =====
-- internal/riskrun/poll.go: what the gateway says of every entity of a manifest, and what moved
-- between two such snapshots. Within one snapshot an entity answers the same to each read, and the
-- sorting of the links by id is a parameter. The path and the run tag of the manifest, which a
-- snapshot only names, are left out.
pub mod Moved
pub mod Keyed
pub mod Balanced
mod Examples
use rzp_rebound.Prelude.{
  ℕ, String, ◌<>◌, ◌⊎◌, inl, inr, Bool, true, false, not, ◌&&◌, ◌||◌, ◌==◌, if◌then◌else◌, Option,
  none, some, List, [], ◌∷◌, ◌++◌, Dict, lookup, insert, lookup_or, length, ℤ, pos, ◌+ℤ◌, ◌-ℤ◌,
  wrap64,
}
use rzp_rebound.Time.{Instant}
use rzp_rebound.Razorpay.{Invoice, Order, Answer}

abbrev pub entry_invoice : String
entry_invoice = "invoice"

abbrev pub entry_order : String
entry_order = "order"

abbrev pub entry_payment_link : String
entry_payment_link = "payment_link"

abbrev skip_no_id : String
skip_no_id = "the manifest item carries no gateway id, so the seed run never created it"

abbrev skip_unknown_kind : String
skip_unknown_kind = "the manifest item has a kind this snapshot cannot read"

-- What is read of a PaymentLinkDetail.
pub record LinkDetail : Type 0 where
  pub status : String
  pub amount_paise : ℤ
  pub amount_paid : ℤ
  pub currency : String

pub record PollApi : Type 0 where
  pub fetch_invoice : String → Answer Invoice
  pub fetch_order : String → Answer Order
  pub fetch_payment_link : String → Answer LinkDetail

-- The fields of a seed.Item that are read here.
pub record PollItem : Type 0 where
  pub kind : String
  pub id : String
  pub order_id : String
  pub customer_id : String

pub record SnapshotEntry : Type 0 where
  pub kind : String
  pub id : String
  pub order_id : String
  pub status : String
  pub amount_paise : ℤ
  pub amount_paid_paise : ℤ
  pub amount_due_paise : ℤ
  pub currency : String
  pub email_status : String
  pub sms_status : String
  pub err : String
  pub duplicate_of : String
  pub duplicate_ask_of : String

pub record SkippedItem : Type 0 where
  pub kind : String
  pub customer_id : String
  pub reason : String

pub record SnapshotTotals : Type 0 where
  pub entries : ℤ
  pub errors : ℤ
  pub duplicates : ℤ
  pub duplicate_asks : ℤ
  pub skipped : ℤ
  pub amount_paise : ℤ
  pub amount_paid_paise : ℤ
  pub amount_due_paise : ℤ

pub record Snapshot : Type 0 where
  pub taken_at : Instant
  pub entries : List SnapshotEntry
  pub skipped : List SkippedItem
  pub totals : SnapshotTotals

pub record MintedLink : Type 0 where
  pub id : String
  pub debt_id : String

unfoldable pub blank_entry : String → String → SnapshotEntry
blank_entry kind id = record {
  kind = kind;
  id = id;
  order_id = "";
  status = "";
  amount_paise = pos 0;
  amount_paid_paise = pos 0;
  amount_due_paise = pos 0;
  currency = "";
  email_status = "";
  sms_status = "";
  err = "";
  duplicate_of = "";
  duplicate_ask_of = "";
}

unfoldable pub fetch_invoice_entry : PollApi → String → SnapshotEntry
fetch_invoice_entry api id = elim (api.fetch_invoice id) [
  | inl e ↦ record (blank_entry entry_invoice id) { err = e }
  | inr invoice ↦ record (blank_entry entry_invoice id) {
    order_id = invoice.order_id;
    status = invoice.status;
    amount_paise = invoice.amount_paise;
    amount_paid_paise = invoice.amount_paid;
    amount_due_paise = invoice.amount_due;
    currency = invoice.currency;
    email_status = invoice.email_status;
    sms_status = invoice.sms_status;
  }
]

unfoldable pub fetch_order_entry : PollApi → String → SnapshotEntry
fetch_order_entry api id = elim (api.fetch_order id) [
  | inl e ↦ record (blank_entry entry_order id) { err = e }
  | inr order ↦ record (blank_entry entry_order id) {
    status = order.status;
    amount_paise = order.amount_paise;
    amount_paid_paise = order.amount_paid;
    amount_due_paise = order.amount_due;
    currency = order.currency;
  }
]

unfoldable pub fetch_link_entry : PollApi → String → SnapshotEntry
fetch_link_entry api id = elim (api.fetch_payment_link id) [
  | inl e ↦ record (blank_entry entry_payment_link id) { err = e }
  | inr link ↦ record (blank_entry entry_payment_link id) {
    status = link.status;
    amount_paise = link.amount_paise;
    amount_paid_paise = link.amount_paid;
    currency = link.currency;
  }
]

abbrev pub key_of : SnapshotEntry → String
key_of e = e.kind <> ("|" <> e.id)

-- The variables of Poll that the loops change.
pub record Board : Type 0 where
  pub seen : Dict Bool
  pub ask_of : Dict String
  pub entries : List SnapshotEntry
  pub skipped : List SkippedItem

abbrev pub new_board : Board
new_board = record { seen = []; ask_of = []; entries = []; skipped = [] }

-- add
unfoldable pub add : Board → SnapshotEntry → Board
unfolding lookup_or insert
add b e = if e.id == "" || lookup_or false (key_of e) b.seen then b else record b {
  seen = insert (key_of e) true b.seen;
  ask_of =
      if e.err == ""
      then insert e.id (if not (e.duplicate_of == "") then e.duplicate_of else e.id) b.ask_of
      else b.ask_of;
  entries = b.entries ++ e ∷ [];
}

-- skip
unfoldable pub skip_item : Board → PollItem → String → Board
skip_item b item reason = record b {
  skipped =
      b.skipped
      ++ (record { kind = item.kind; customer_id = item.customer_id; reason = reason }) ∷ [];
}

-- The order that an invoice minted, marked as its duplicate if the invoice was read.
unfoldable pub minted_order : PollApi → SnapshotEntry → String → SnapshotEntry
minted_order api invoice order_id =
    let order = fetch_order_entry api order_id in
    if invoice.err == "" then record order { duplicate_of = invoice.id } else order

unfoldable pub poll_invoice : PollApi → Board → PollItem → Board
poll_invoice api b item =
    let invoice = fetch_invoice_entry api item.id in
    let order_id = if invoice.order_id == "" then item.order_id else invoice.order_id in
    let added = add b invoice in
    if order_id == "" then added else add added (minted_order api invoice order_id)

-- One turn of the loop over the items of the manifest
unfoldable pub poll_item : PollApi → Board → PollItem → Board
poll_item api b item =
    if item.id == ""
    then skip_item b item skip_no_id
    else if item.kind == entry_invoice
    then poll_invoice api b item
    else if item.kind == entry_order
    then add b (fetch_order_entry api item.id)
    else skip_item b item skip_unknown_kind

unfoldable pub poll_items : PollApi → Board → List PollItem → Board
poll_items api b [] = b
poll_items api b (item ∷ items) = poll_items api (poll_item api b item) items

-- One turn of the loop over the links
unfoldable pub poll_link : PollApi → Board → MintedLink → Board
unfolding lookup_or
poll_link api b link =
    let entry = fetch_link_entry api link.id in
    let carrier = lookup_or "" link.debt_id b.ask_of in
    add b (
      if entry.err == "" && not (link.debt_id == "") && not (carrier == "")
      then record entry { duplicate_ask_of = carrier }
      else entry)

unfoldable pub poll_links : PollApi → Board → List MintedLink → Board
poll_links api b [] = b
poll_links api b (link ∷ links) = poll_links api (poll_link api b link) links

unfoldable pub total : ℤ → ℤ → ℤ
unfolding wrap64 ◌+ℤ◌
total a b = wrap64 (a +ℤ b)

-- One turn of the loop over the entries
unfoldable pub total_one : SnapshotTotals → SnapshotEntry → SnapshotTotals
total_one t e =
    let t' = record t { entries = total t.entries (pos 1) } in
    if not (e.err == "")
    then record t' { errors = total t.errors (pos 1) }
    else if not (e.duplicate_of == "")
    then record t' { duplicates = total t.duplicates (pos 1) }
    else if not (e.duplicate_ask_of == "")
    then record t' {
      duplicate_asks = total t.duplicate_asks (pos 1);
      amount_paid_paise = total t.amount_paid_paise e.amount_paid_paise;
    }
    else record t' {
      amount_paise = total t.amount_paise e.amount_paise;
      amount_paid_paise = total t.amount_paid_paise e.amount_paid_paise;
      amount_due_paise = total t.amount_due_paise e.amount_due_paise;
    }

unfoldable pub total_all : SnapshotTotals → List SnapshotEntry → SnapshotTotals
total_all t [] = t
total_all t (e ∷ es) = total_all (total_one t e) es

-- Poll, given a client; the instant is that of the options, or of the wall clock.
unfoldable pub poll_snapshot :
    PollApi
    → (List MintedLink → List MintedLink)
    → Instant
    → List PollItem
    → List MintedLink
    → Snapshot
unfolding poll_items poll_links total_all
poll_snapshot api sorted now items links =
    let b = poll_links api (poll_items api new_board items) (sorted links) in
    record {
      taken_at = now;
      entries = b.entries;
      skipped = b.skipped;
      totals =
          total_all
            (record {
              entries = pos 0;
              errors = pos 0;
              duplicates = pos 0;
              duplicate_asks = pos 0;
              skipped = pos (length b.skipped);
              amount_paise = pos 0;
              amount_paid_paise = pos 0;
              amount_due_paise = pos 0;
            })
            b.entries;
    }
