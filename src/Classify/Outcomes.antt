-- ===== src/Classify/Outcomes.antt =====
-- What `classify` answers over the tables of the program.
use rzp_rebound.Prelude.{
  String, ◌≡◌, ◌≢◌, refl, sym, ap, ◌∙◌, ◌↔◌, ◌⊎◌, inl, inr, Bool, true, ◌&&◌, ◌||◌, not, ◌==◌,
  eq_iff, none, some, [], ◌∷◌, Dict, lookup, All, arith, Option-cases, str_discrete, lookup_or,
}
use rzp_rebound.Classify.{
  Class, unclassified, never_retry, eq_class, classify_across, classify, Failure, by_method,
  documented_reasons, reason_tables, card_reasons, upi_reasons, test_mode_card_table_reasons,
  error_classes, string, parse_class, reason_payment_risk_check_failed,
}
use rzp_rebound.Classify.Agreement.{eq_class→eq, eq_class_refl}

-- Every entry of a table has the class that the lookup across all tables gives its reason.
agrees : Dict Class → Bool
agrees [] = true
agrees ((k, c) ∷ rest) = eq_class (classify_across reason_tables k) c && agrees rest

lookup-agrees :
    (table : Dict Class) (reason : String) (c : Class)
    → agrees table ≡ true
    → lookup reason table ≡ some c
    → classify_across reason_tables reason ≡ c
unfolding agrees lookup
lookup-agrees [] reason c a e = cc
lookup-agrees ((k, d) ∷ rest) reason c a e = ground (
  arith,
  eq_iff k reason,
  eq_class→eq (classify_across reason_tables k) d,
  lookup-agrees rest reason c,
)

card-agrees : agrees card_reasons ≡ true
unfolding agrees classify_across reason_tables card_reasons upi_reasons test_mode_card_table_reasons
    lookup
card-agrees = refl

upi-agrees : agrees upi_reasons ≡ true
unfolding agrees classify_across reason_tables card_reasons upi_reasons test_mode_card_table_reasons
    lookup
upi-agrees = refl

by_method-across :
    (table : Dict Class) (reason : String)
    → agrees table ≡ true
    → by_method (some table) reason ≡ classify_across reason_tables reason
unfolding by_method
by_method-across table reason a = elim (Option-cases (lookup reason table)) [
  | inl absent ↦ ground arith
  | inr (c, held) ↦ ground (arith, lookup-agrees table reason c)
]

by_method-none : (reason : String) → by_method none reason ≡ classify_across reason_tables reason
unfolding by_method
by_method-none reason = refl

by_method-documented :
    (m reason : String)
    → by_method (documented_reasons m) reason ≡ classify_across reason_tables reason
unfolding documented_reasons
by_method-documented m reason = ground (
  arith,
  by_method-across card_reasons reason card-agrees,
  by_method-across upi_reasons reason upi-agrees,
  by_method-none reason,
)

-- The table maps no reason but `k` to the class `c`.
only : String → Class → Dict Class → Bool
only k c [] = true
only k c ((j, d) ∷ rest) = (not (eq_class d c) || j == k) && only k c rest

lookup-only :
    (k : String) (c : Class) (table : Dict Class) (reason : String)
    → only k c table ≡ true
    → lookup reason table ≡ some c
    → reason ≡ k
unfolding only lookup
lookup-only k c [] reason o e = cc
lookup-only k c ((j, d) ∷ rest) reason o e =
    ground (arith, eq_iff j reason, eq_iff j k, eq_class_refl c, lookup-only k c rest reason)

tables-only :
    (only reason_payment_risk_check_failed never_retry card_reasons ≡ true)
    × (only reason_payment_risk_check_failed never_retry upi_reasons ≡ true)
    × (only reason_payment_risk_check_failed never_retry test_mode_card_table_reasons ≡ true)
unfolding only card_reasons upi_reasons test_mode_card_table_reasons
tables-only = (refl, refl, refl)

-- A reason that is present decides the class alone: the method, the code, the source and the step
-- of the failure change nothing, since the documented tables agree wherever they overlap.
pub classify-eq-across :
    (f : Failure) → f.reason ≢ "" → classify f ≡ classify_across reason_tables f.reason
unfolding classify
classify-eq-across f h = ground (arith, eq_iff f.reason "", by_method-documented f.method f.reason)

-- A reason that no table holds is unclassified, whatever the other fields say; in particular the
-- coarser error code is not consulted.
pub classify_fail_closed :
    (f : Failure)
    → f.reason ≢ ""
    → All (λ table. lookup f.reason table ≡ none) reason_tables
    → classify f ≡ unclassified
unfolding reason_tables
classify_fail_closed f h absent = classify-eq-across f h ∙ (unfold classify_across in ground arith)

across-never_retry :
    (reason : String)
    → classify_across reason_tables reason ≡ never_retry
    → reason ≡ reason_payment_risk_check_failed
unfolding classify_across reason_tables
across-never_retry reason e =
    let (card, upi, test) = tables-only in
    ground (
      arith,
      lookup-only reason_payment_risk_check_failed never_retry card_reasons reason card,
      lookup-only reason_payment_risk_check_failed never_retry upi_reasons reason upi,
      lookup-only reason_payment_risk_check_failed never_retry test_mode_card_table_reasons reason
          test,
    )

risk-never_retry : classify_across reason_tables reason_payment_risk_check_failed ≡ never_retry
unfolding classify_across reason_tables card_reasons upi_reasons test_mode_card_table_reasons lookup
risk-never_retry = refl

classify_no_reason :
    (f : Failure) → f.reason ≡ "" → (classify f ≡ never_retry) ↔ (f.code ≡ "BAD_REQUEST_ERROR")
unfolding classify lookup_or lookup error_classes
classify_no_reason f h = (
  λ e. ground (arith, eq_iff "BAD_REQUEST_ERROR" f.code, eq_iff f.reason ""),
  λ e. ground (
    arith,
    eq_iff "BAD_REQUEST_ERROR" f.code,
    eq_iff "GATEWAY_ERROR" f.code,
    eq_iff f.reason "",
    eq_iff "GATEWAY_ERROR" "BAD_REQUEST_ERROR",
  ),
)

risk_given : reason_payment_risk_check_failed ≢ ""
risk_given e = ground (arith, eq_iff reason_payment_risk_check_failed "")

-- The class that forbids every action is answered for one documented reason, whatever the rest of
-- the failure, and without a reason for one error code; and for nothing else.
pub classify_never_retry_iff :
    (f : Failure)
    → (classify f ≡ never_retry) ↔ (
        (f.reason ≡ reason_payment_risk_check_failed)
        ⊎ ((f.reason ≡ "") × (f.code ≡ "BAD_REQUEST_ERROR")))
classify_never_retry_iff f = elim (str_discrete f.reason "") [
  | yes none_given ↦ (
    λ e. inr (none_given, (classify_no_reason f none_given).0 e),
    elim [
      | inl risk ↦ absurd (risk_given (sym risk ∙ none_given))
      | inr (empty, code) ↦ (classify_no_reason f none_given).1 code
    ],
  )
  | no given ↦ (
    λ e. inl (across-never_retry f.reason (sym (classify-eq-across f given) ∙ e)),
    elim [
      | inl risk ↦
          classify-eq-across f given ∙ ap (classify_across reason_tables) risk ∙ risk-never_retry
      | inr (empty, code) ↦ absurd (given empty)
    ],
  )
]

string-parse_class : (c : Class) (name : String) → parse_class name ≡ some c → string c ≡ name
unfolding parse_class string
string-parse_class c name e = ground (
  arith,
  eq_iff "unclassified" name,
  eq_iff "transient_retry_eligible" name,
  eq_iff "retry_eligible" name,
  eq_iff "reauth_required" name,
  eq_iff "new_instrument_required" name,
  eq_iff "never_retry" name,
)

parse_class-of_string : (c : Class) (name : String) → string c ≡ name → parse_class name ≡ some c
unfolding parse_class string
parse_class-of_string unclassified name e = rw (← e)
parse_class-of_string _ name e = rw (← e)

-- A name parses to a class exactly when it is that class's name.
pub parse_class-string :
    (c : Class) (name : String) → (parse_class name ≡ some c) ↔ (string c ≡ name)
parse_class-string c name = (string-parse_class c name, parse_class-of_string c name)
