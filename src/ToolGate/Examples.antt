-- ===== src/ToolGate/Examples.antt =====
-- The gate on a server with one item and a decision about it.
use rzp_rebound.Prelude.{String, false, none, [], ◌∷◌, pos}
use rzp_rebound.Audit.{Services, new_recorder}
use rzp_rebound.RiskItem.{RiskItem}
use rzp_rebound.ToolGate.{ToolServer, ToolState, gate}
use rzp_rebound.ToolGate.Contained.{IsContained, gate-IsContained}

abbrev services : Services
services = record {
  replace_all = λ pattern text by. text;
  to_lower = λ text. text;
  trim_space = λ text. text;
  marshal = λ row. none;
  write = λ rows row. none;
}

abbrev server : ToolServer
server = record {
  kill_switch_engaged = false;
  action_budget = pos 6;
  arm = "agent";
  services = services;
  quoted = λ text. text;
}

abbrev item : RiskItem
item = record {
  id = "ri_1";
  source = "overdue_invoice";
  source_id = "inv_1";
  root_order_id = "order_1";
  customer = record { name = "A"; email = "a@example.com"; contact = "" };
  amount_paise = pos 50000;
  amount_paid_paise = pos 20000;
  amount_due_paise = pos 30000;
  currency = "INR";
  at_risk_since = pos 1699990000;
  signal = record {
    failure_code = "";
    failure_reason = "";
    failure_source = "";
    failure_step = "";
    method = "";
    attempts = pos 0;
    email_status = "";
    sms_status = "";
  };
  pay_handle = record { kind = "invoice"; url = "https://rzp.io/i/1"; id = "inv_1" };
}

abbrev handler : ToolState → ToolState × String
handler s = (s, "sent")

abbrev state : ToolState
state = record {
  allowed = ("ri_1", item) ∷ [];
  order = "ri_1" ∷ [];
  decisions =
      ("ri_1", record { item_id = "ri_1"; action = "notify_email"; reasoning = "it is unpaid" })
      ∷ [];
  tallies = [];
  actions_spent = pos 0;
  tool_calls = pos 0;
  recorder = new_recorder;
}

gate-IsContained_example :
    IsContained server handler state "notify_item" "ri_1"
      (gate server handler state 7 none "notify_item" "ri_1")
gate-IsContained_example = gate-IsContained server handler state 7 none "notify_item" "ri_1"
