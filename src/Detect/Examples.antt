-- ===== src/Detect/Examples.antt =====
-- Sweeps over an account with one order that was never tried.
use rzp_rebound.Prelude.{
  ℕ, ◌+◌, ◌*◌, ◌^◌, ◌≤◌, ◌<◌, ltb, String, ◌≡◌, refl, ◌↔◌, ◌⊎◌, inl, inr, none, some, List, [], ◌∷◌,
  take, drop, pos, pos_part, wrap64, if◌then◌else◌, arith,
}
use rzp_rebound.Razorpay.{
  Order, Payment, Invoice, Answer, Lister, order_status_created, payment_status_failed,
  invoice_status_issued,
}
use rzp_rebound.Time.{second, unix_epoch}
use rzp_rebound.RiskItem.{RiskItem}
use rzp_rebound.Detect.{Config, page_size, max_pages, page_options, sweep, collapse}
use rzp_rebound.Detect.Sources.{
  newest_failed, detect_failed_payments, detect_overdue_invoices, item_from_unpaid_order,
}
use rzp_rebound.Detect.Collapse.{Collapsed, collapse-Collapsed}
use rzp_rebound.Detect.Sweep.{size, limit, Serves, sweep_served, sweep_broken}
use rzp_rebound.Detect.Newest.{NewestOf, newest_failed-NewestOf}
use rzp_rebound.Detect.Sightings.{Member, SeenIn, Overdue, detect_overdue_invoices_iff}
use rzp_rebound.Detect.Failures.{Failed, Unreadable, detect_failed_payments_iff}

abbrev order : Order
order = record {
  id = "order_1";
  amount_paise = pos 50000;
  amount_paid = pos 0;
  amount_due = pos 50000;
  currency = "INR";
  receipt = "";
  status = order_status_created;
  attempts = pos 0;
  created_at = pos 1700000000;
  notes = [];
}

abbrev payment : Payment
payment = record {
  id = "pay_1";
  order_id = "order_1";
  amount_paise = pos 50000;
  currency = "INR";
  status = payment_status_failed;
  method = "card";
  email = "a@example.com";
  contact = "";
  created_at = pos 1700000100;
  error_code = "BAD_REQUEST_ERROR";
  error_description = "";
  error_source = "customer";
  error_step = "payment_authentication";
  error_reason = "payment_cancelled";
}

abbrev invoice : Invoice
invoice = record {
  id = "inv_1";
  customer_details = record {
    id = "cust_1";
    name = "A";
    email = "a@example.com";
    contact = "";
    gstin = "";
  };
  order_id = "order_1";
  status = invoice_status_issued;
  short_url = "https://rzp.io/i/1";
  currency = "INR";
  amount_paise = pos 50000;
  amount_paid = pos 0;
  amount_due = pos 50000;
  sms_status = "";
  email_status = "sent";
  issued_at = pos 1699000000;
}

abbrev cfg : Config
cfg = record {
  page_size = pos 1;
  max_pages = pos 3;
  grace = pos 0;
  since = pos 0;
  now = (unix_epoch + 1_700_000_000) * second;
}

abbrev serve : {A : Type 0} → List A → Lister A
serve all o = inr (take (pos_part o.count) (drop (pos_part o.skip) all))

-- The second page times out.
abbrev flaky : Lister Order
flaky o = if ltb 0 (pos_part o.skip) then inl "timeout" else serve (order ∷ order ∷ []) o

abbrev payments_of : String → Answer (List Payment)
payments_of id = inr (payment ∷ [])

abbrev sha256_hex : String → String
sha256_hex text = text

collapse-Collapsed_example :
    let items =
      item_from_unpaid_order sha256_hex order ∷ item_from_unpaid_order sha256_hex order ∷ [] in
    Collapsed items (collapse items)
collapse-Collapsed_example =
    collapse-Collapsed
      (item_from_unpaid_order sha256_hex order ∷ item_from_unpaid_order sha256_hex order ∷ [])

pages_fit : limit cfg * size cfg < 2 ^ 63
unfolding page_size max_pages
pages_fit = omega arith

sweep_served_example :
    sweep cfg (serve (order ∷ [])) ≡ (take (limit cfg * size cfg) (order ∷ []), none)
sweep_served_example = sweep_served cfg (serve (order ∷ [])) (order ∷ []) pages_fit (λ r. refl)

one_below : 1 < limit cfg
unfolding max_pages
one_below = omega arith

first_page : (r : ℕ) → r < 1 → Serves (order ∷ order ∷ []) flaky (page_options cfg r)
unfolding page_options page_size wrap64
first_page r lt = let first : r ≡ 0 = omega arith in rw first refl

second_page : flaky (page_options cfg 1) ≡ inl "timeout"
unfolding page_options page_size wrap64
second_page = refl

one_page : (1 * size cfg < 2 ^ 63) × (1 * size cfg ≤ 2)
unfolding page_size
one_page = (omega arith, omega arith)

sweep_broken_example : sweep cfg flaky ≡ (take (1 * size cfg) (order ∷ order ∷ []), some "timeout")
sweep_broken_example =
    sweep_broken cfg flaky (order ∷ order ∷ []) 1 "timeout" one_below one_page.0 one_page.1
      first_page second_page

newest_failed-NewestOf_example :
    NewestOf (payment ∷ payment ∷ []) (newest_failed (payment ∷ payment ∷ []))
newest_failed-NewestOf_example = newest_failed-NewestOf (payment ∷ payment ∷ [])

detect_overdue_invoices_iff_example :
    let (items, err) = detect_overdue_invoices sha256_hex cfg (serve (invoice ∷ [])) in
    ((item : RiskItem)
      → Member item items
        ↔ SeenIn (Overdue sha256_hex cfg) item (sweep cfg (serve (invoice ∷ []))).0)
    × (err ≡ (sweep cfg (serve (invoice ∷ []))).1)
detect_overdue_invoices_iff_example =
    detect_overdue_invoices_iff sha256_hex cfg (serve (invoice ∷ []))

detect_failed_payments_iff_example :
    let (orders, sweep_err) = sweep cfg (serve (order ∷ [])) in
    let (items, errs) = detect_failed_payments sha256_hex cfg (serve (order ∷ [])) payments_of in
    ((i : RiskItem) → Member i items ↔ SeenIn (Failed sha256_hex payments_of) i orders)
    × ((text : String)
        → Member text errs
          ↔ ((sweep_err ≡ some text) ⊎ SeenIn (Unreadable sha256_hex payments_of) text orders))
detect_failed_payments_iff_example =
    detect_failed_payments_iff sha256_hex payments_of cfg (serve (order ∷ []))
