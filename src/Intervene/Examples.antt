-- ===== src/Intervene/Examples.antt =====
-- An engine whose gateway accepts everything and whose promise ledger is full.
use rzp_rebound.Prelude.{String, ◌≡◌, refl, inr, true, none, some, [], ◌∷◌, pos, ◌+◌, ◌*◌, List}
use rzp_rebound.Action
use rzp_rebound.Action.{is_lawful, lawful_set}
use rzp_rebound.Time.{Instant, second, unix_epoch}
use rzp_rebound.Razorpay.{Invoice, NotifyReceipt}
use rzp_rebound.RiskItem.{RiskItem, handle_kind_invoice, has_contact_channel}
use rzp_rebound.Audit.{Services}
use rzp_rebound.Intervene.{
  Outside, Setup, Context, new_setup, new_engine, ApplyArgs, notify_invoice, fetch_invoice, apply,
  apply_all, guarded, dispatch, dispatched, start, notify, notify_by_invoice, read_back,
  notify_status, tried, with_error, finish, apply_fresh,
}
use rzp_rebound.Intervene.Warranted.{Honest, dispatch-Honest}
use rzp_rebound.Intervene.Once.{apply_again}
use rzp_rebound.Intervene.Rows.{Reported, apply-Reported}

abbrev plain : Services
plain = record {
  replace_all = λ pattern text with. text;
  to_lower = λ s. s;
  trim_space = λ s. s;
  marshal = λ row. none;
  write = λ rows row. none;
}

abbrev now : Instant
now = (unix_epoch + 1_700_000_000) * second

abbrev invoice : Invoice
invoice = record {
  id = "inv_1";
  customer_details = record {
    id = "cust_1";
    name = "A";
    email = "a@example.com";
    contact = "";
    gstin = "";
  };
  order_id = "order_1";
  status = "issued";
  short_url = "https://rzp.io/i/1";
  currency = "INR";
  amount_paise = pos 50000;
  amount_paid = pos 20000;
  amount_due = pos 30000;
  sms_status = "";
  email_status = "sent";
  issued_at = pos 1699990000;
}

abbrev receipt : String → String → NotifyReceipt
receipt id medium = record { link_id = id; medium = medium; accepted = true; requested_at = now }

abbrev obliging : Outside
obliging = record {
  answer_notify_invoice = λ h id medium. inr (receipt id medium);
  answer_fetch_invoice = λ h id. inr invoice;
  answer_cancel_invoice = λ h id. inr (record invoice { status = "cancelled" });
  answer_create_link = λ h req. inr (record {
    id = "plink_1";
    short_url = "https://rzp.io/l/1";
    status = "created";
    amount_paise = req.amount_paise;
    currency = req.currency;
    reference_id = req.reference_id;
    created_at = pos 1700000000;
  });
  answer_resend = λ h id medium. inr (receipt id medium);
  answer_log = λ h rec. some "ledger full";
  answer_escalate = λ h esc. none;
}

abbrev pub setup : Setup
setup = new_setup obliging plain (pos 0) ""

abbrev item : RiskItem
item = record {
  id = "ri_1";
  source = "overdue_invoice";
  source_id = "inv_1";
  root_order_id = "order_1";
  customer = record { name = "A"; email = "a@example.com"; contact = "" };
  amount_paise = pos 50000;
  amount_paid_paise = pos 20000;
  amount_due_paise = pos 30000;
  currency = "INR";
  at_risk_since = pos 1699990000;
  signal = record {
    failure_code = "";
    failure_reason = "";
    failure_source = "";
    failure_step = "";
    method = "";
    attempts = pos 0;
    email_status = "";
    sms_status = "";
  };
  pay_handle = record { kind = handle_kind_invoice; url = "https://rzp.io/i/1"; id = "inv_1" };
}

abbrev request : String → ApplyArgs
request action = record {
  ctx = record { idempotency_key = ""; reason = "" };
  item = item;
  action = action;
  now = now;
  recorded = now + 1;
  span = none;
}

abbrev email : ApplyArgs
email = request Action.notify_email

abbrev ctx : Context
ctx = email.ctx

dispatch-Honest_example :
    Honest setup ctx item Action.notify_email now
      (dispatch setup [] ctx item Action.notify_email (start email))
unfolding start
dispatch-Honest_example = dispatch-Honest setup [] ctx item Action.notify_email (start email)

-- The invoice is sent and read back.
email_calls :
    (dispatched setup new_engine email).calls
    ≡ notify_invoice "inv_1" "email" ∷ fetch_invoice "inv_1" ∷ []
unfolding dispatched dispatch notify notify_by_invoice read_back notify_status tried start
    has_contact_channel new_setup
email_calls = refl

email_out : (apply setup new_engine email).1.outcome.observable ≡ "email_status:sent"
unfolding apply apply_fresh finish is_lawful lawful_set with_error dispatched dispatch notify
    notify_by_invoice read_back notify_status tried start has_contact_channel new_setup
email_out = refl

abbrev between : List ApplyArgs
between = request Action.log_promise ∷ request "retry" ∷ request Action.escalate ∷ []

apply_again_example :
    let later = (apply_all setup (apply setup new_engine email).0 between).0 in
    let again = apply setup later email in
    (again.1.outcome ≡ (apply setup new_engine email).1.outcome) × (again.0.made ≡ later.made)
unfolding apply apply_fresh finish is_lawful lawful_set with_error dispatched dispatch notify
    notify_by_invoice read_back notify_status tried start has_contact_channel new_setup guarded
apply_again_example = apply_again setup new_engine email between email refl refl refl refl

apply-Reported_example : Reported new_engine email (apply setup new_engine email)
apply-Reported_example = apply-Reported setup new_engine email
