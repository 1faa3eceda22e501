-- ===== src/RiskRun/Snapshot/Examples.antt =====
-- A snapshot of one invoice with the order that it minted, of an order that cannot be read, and of
-- a payment link for the invoice.
use rzp_rebound.Prelude.{
  ◌≡◌, refl, lookup, lookup_or, insert, wrap64, ◌+ℤ◌, ◌-ℤ◌, inl, inr, List, [], ◌∷◌, pos,
}
use rzp_rebound.RiskRun.Snapshot.{
  PollApi, PollItem, MintedLink, Snapshot, poll_snapshot, poll_items, poll_item, poll_invoice,
  poll_links, poll_link, add, blank_entry, skip_item, minted_order, fetch_invoice_entry,
  fetch_order_entry, fetch_link_entry, total,
}
use rzp_rebound.RiskRun.Snapshot.Moved.{
  diff, index_entries, diff_all, diff_one, compare_entries, compare_money, change, unmatched,
}
use rzp_rebound.RiskRun.Snapshot.Balanced.{Aligned, Balances, diff-Balances}

abbrev api : PollApi
api = record {
  fetch_invoice = λ id. inr (record {
    id = id;
    customer_details = record { id = ""; name = ""; email = ""; contact = ""; gstin = "" };
    order_id = "order_1";
    status = "partially_paid";
    short_url = "";
    currency = "INR";
    amount_paise = pos 50000;
    amount_paid = pos 20000;
    amount_due = pos 30000;
    sms_status = "";
    email_status = "sent";
    issued_at = pos 0;
  });
  fetch_order = λ id. inl "razorpay: order not found";
  fetch_payment_link = λ id. inr (record {
    status = "paid";
    amount_paise = pos 30000;
    amount_paid = pos 30000;
    currency = "INR";
  });
}

abbrev items : List PollItem
items =
    (record { kind = "invoice"; id = "inv_1"; order_id = ""; customer_id = "cust_1" })
    ∷ (record { kind = "order"; id = "order_2"; order_id = ""; customer_id = "" })
    ∷ (record { kind = "invoice"; id = ""; order_id = ""; customer_id = "cust_2" })
    ∷ []

abbrev links : List MintedLink
links = (record { id = "plink_1"; debt_id = "inv_1" }) ∷ []

-- The same account once the rest of the invoice was paid on its link.
abbrev later_api : PollApi
later_api = record {
  fetch_invoice = api.fetch_invoice;
  fetch_order = api.fetch_order;
  fetch_payment_link = λ id. inr (record {
    status = "created";
    amount_paise = pos 30000;
    amount_paid = pos 0;
    currency = "INR";
  });
}

abbrev before : Snapshot
before = poll_snapshot later_api (λ ls. ls) 10 items links

abbrev after : Snapshot
after = poll_snapshot api (λ ls. ls) 20 items links

aligned : Aligned before.entries after.entries
unfolding poll_snapshot poll_items poll_item poll_invoice poll_links poll_link add skip_item
    minted_order fetch_invoice_entry fetch_order_entry fetch_link_entry lookup_or insert blank_entry
aligned = (
  (refl, refl, refl, refl),
  ((refl, refl, refl, refl), ((refl, refl, refl, refl), ((refl, refl, refl, refl), tt))),
)

diff-Balances_example : Balances (diff before after) before.totals after.totals
diff-Balances_example =
    diff-Balances later_api api (λ ls. ls) (λ ls. ls) 10 20 items items links links aligned

recovered : (diff before after).recovered_paise ≡ pos 30000
unfolding poll_snapshot poll_items poll_item poll_invoice poll_links poll_link add skip_item
    minted_order fetch_invoice_entry fetch_order_entry fetch_link_entry lookup_or insert diff
    index_entries diff_all diff_one lookup compare_entries compare_money change total unmatched
    wrap64 ◌+ℤ◌ ◌-ℤ◌ blank_entry
recovered = refl
