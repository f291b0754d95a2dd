-- ===== src/Audit.antt =====
-- miriam_agent/hands/audit.py: receipts and audit rows, with the reason codes that ride on a
-- refused movement. The prose `detail` of a receipt and its `strategy_id` are left out; a snapshot
-- of the sleeves is the dict of balances itself, in cents, where the source prints each one.
use miriam.Prelude.{ℕ, String, ℤ, Bool, true, false, Option, List, Dict}
use miriam.Decimal.{Decimal}

pub data ReceiptStatus : Type 0 where
  executed parked queued noop rejected : ReceiptStatus

-- The codes that hands/ and judgment/rules.py write; `incomplete_state` is INSUFFICIENT_STATE.
pub data Reason : Type 0 where
  non_positive_amount over_limit locked_sleeve over_balance daily_cap weekly_cap velocity : Reason
  no_decision not_act_mode decision_denied : Reason
  journal_unavailable already_in_flight duplicate_key no_proposed_action : Reason
  rail_failed rollback yield_rail_down insufficient_spendable rent_reserved : Reason
  rent_short over_auto missing_amount unknown_inflow low_confidence incomplete_state : Reason
  jev_unavailable advice_only confirm_without_id confirmation_required user_cancelled : Reason
  needs_an_answer reversible affordable matches_policy : Reason
  no_such_challenge challenge_expired challenge_mismatch user_declined : Reason
  bad_amount no_go_token rate_unavailable paj_initiate_failed onramp_failed : Reason
  payin_account_missing bad_rail paj_verification_required paj_verify_failed bad_otp_format : Reason
  app_only bill_pay_failed glider_unreachable glider_not_live bad_strategy : Reason
  cooldown no_execution automations_unreachable no_save_rule save_rule_update_failed : Reason
  save_rule_unbound bad_order_side unknown_symbol sleeve_missing sleeve_unbound : Reason
  bad_asset_id still_staged funding_failed : Reason

-- the place of a code in the list above, by which two codes are compared
abbrev pub reason_code : Reason → ℕ
reason_code non_positive_amount = 0
reason_code over_limit = 1
reason_code locked_sleeve = 2
reason_code over_balance = 3
reason_code daily_cap = 4
reason_code weekly_cap = 5
reason_code velocity = 6
reason_code no_decision = 7
reason_code not_act_mode = 8
reason_code decision_denied = 9
reason_code journal_unavailable = 10
reason_code already_in_flight = 11
reason_code duplicate_key = 12
reason_code no_proposed_action = 13
reason_code rail_failed = 14
reason_code rollback = 15
reason_code yield_rail_down = 16
reason_code insufficient_spendable = 17
reason_code rent_reserved = 18
reason_code rent_short = 19
reason_code over_auto = 20
reason_code missing_amount = 21
reason_code unknown_inflow = 22
reason_code low_confidence = 23
reason_code incomplete_state = 24
reason_code jev_unavailable = 25
reason_code advice_only = 26
reason_code confirm_without_id = 27
reason_code confirmation_required = 28
reason_code user_cancelled = 29
reason_code needs_an_answer = 30
reason_code reversible = 31
reason_code affordable = 32
reason_code matches_policy = 33
reason_code no_such_challenge = 34
reason_code challenge_expired = 35
reason_code challenge_mismatch = 36
reason_code user_declined = 37
reason_code bad_amount = 38
reason_code no_go_token = 39
reason_code rate_unavailable = 40
reason_code paj_initiate_failed = 41
reason_code onramp_failed = 42
reason_code payin_account_missing = 43
reason_code bad_rail = 44
reason_code paj_verification_required = 45
reason_code paj_verify_failed = 46
reason_code bad_otp_format = 47
reason_code app_only = 48
reason_code bill_pay_failed = 49
reason_code glider_unreachable = 50
reason_code glider_not_live = 51
reason_code bad_strategy = 52
reason_code cooldown = 53
reason_code no_execution = 54
reason_code automations_unreachable = 55
reason_code no_save_rule = 56
reason_code save_rule_update_failed = 57
reason_code save_rule_unbound = 58
reason_code bad_order_side = 59
reason_code unknown_symbol = 60
reason_code sleeve_missing = 61
reason_code sleeve_unbound = 62
reason_code bad_asset_id = 63
reason_code still_staged = 64
reason_code funding_failed = 65

pub data Trigger : Type 0 where
  user event confirm system : Trigger

-- A datetime: an instant in seconds, or a wall time with no time zone.
pub data Moment : Type 0 where
  aware naive : ℕ → Moment

pub record Receipt : Type 0 where
  pub id : String
  pub at : Moment
  pub status : ReceiptStatus
  pub action : String
  pub currency : String
  pub amount : Option Decimal
  pub counterparty : String
  pub sleeve : String
  pub decision_id : String
  pub idempotency_key : String
  pub reasons : List Reason
  pub sleeves_before : Dict ℤ
  pub sleeves_after : Dict ℤ
  pub rail_reference : String
  pub confirm_id : String
  pub idempotent_replay : Bool
  pub verified : Bool

pub record AuditRow : Type 0 where
  pub id : String
  pub at : Moment
  pub user_id : String
  pub action : String
  pub trigger : Trigger
  pub amount : Option Decimal
  pub currency : String
  pub sleeve : String
  pub counterparty : String
  pub sleeves_before : Dict ℤ
  pub sleeves_after : Dict ℤ
  pub decision_id : String
  pub receipt_id : String
  pub idempotency_key : String

unfoldable pub is_executed : ReceiptStatus → Bool
is_executed executed = true
is_executed _ = false
