-- ===== src/Policy/Texts.antt =====
-- internal/policy/policy.go: the texts of the verdicts and of the rule ids.
use rzp_rebound.Prelude.{String}
use rzp_rebound.Policy.Model.{Verdict, Rule}

unfoldable pub verdict_text : Verdict → String
verdict_text Verdict.allow = "allow"
verdict_text Verdict.deny = "deny"
verdict_text Verdict.escalate = "escalate"

unfoldable pub rule_text : Rule → String
rule_text Rule.default_allow = "R0-DEFAULT-ALLOW"
rule_text Rule.max_touches = "R1-MAX-TOUCHES"
rule_text Rule.cooldown = "R2-COOLDOWN"
rule_text Rule.human_approval = "R3-HUMAN-APPROVAL-CEILING"
rule_text Rule.never_contact = "R4-NEVER-CONTACT"
rule_text Rule.action_budget = "R5-ACTION-BUDGET"
rule_text Rule.notify_rate = "R6-NOTIFY-RATE"
rule_text Rule.unknown_fail_closed = "R7-UNKNOWN-FAIL-CLOSED"
rule_text Rule.kill_switch = "R8-KILL-SWITCH"
rule_text Rule.idempotency = "R9-IDEMPOTENCY"
rule_text Rule.no_contact_channel = "R10-NO-CONTACT-CHANNEL"
rule_text Rule.not_yet_due = "R11-NOT-YET-DUE"
rule_text Rule.quiet_hours = "R12-QUIET-HOURS"
rule_text Rule.disputed = "R13-DISPUTED-NEVER-CHASE"
rule_text Rule.promise_hold = "R15-PROMISE-HOLD"
