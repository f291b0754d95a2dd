-- ===== src/Limits.antt =====
-- miriam_agent/hands/limits.py: the policy, the usage that the caps are measured against, and the
-- verdict on one proposed movement of an amount in whole cents. What a time zone does is a
-- parameter: the local midnight of an instant, its weekday, and some days earlier on the wall clock.
pub mod Caps
pub mod Usage
pub mod Trimming
pub mod Verdict
use miriam.Prelude.{
  ℕ, suc, ◌+◌, ◌-◌, ◌*◌, ◌<◌, ◌≤◌, String, ℤ, pos, ◌+ℤ◌, ◌-ℤ◌, ltb_ℤ, leb_ℤ, min_ℤ, max_ℤ, Bool,
  true, false, ◌&&◌, ◌||◌, not, Option, none, some, List, [], ◌∷◌, ◌++◌, Dict, leb, ltb, str_eq,
  if◌then◌else◌,
}
use miriam.Decimal.{Decimal, money}
use miriam.Audit.{
  Reason, non_positive_amount, over_limit, locked_sleeve, over_balance, daily_cap, weekly_cap,
  velocity, Receipt, ReceiptStatus, is_executed, Moment, aware, naive,
}
use miriam.Ledger.{Ledger, Challenge, is_open}

pub record Policy : Type 0 where
  pub max_auto : ℤ
  pub max_with_confirm : ℤ
  pub reversible_under : ℤ
  pub max_daily : ℤ
  pub max_weekly : ℤ
  pub max_per_hour : ℕ
  pub locked_sleeves : List String
  pub yield_fallback : String

-- the settings that `Policy.from_settings` reads; an absent one is `none`
pub record Settings : Type 0 where
  pub approval_required_above : Decimal
  pub max_transaction_amount : Decimal
  pub max_daily_transfer : Option Decimal
  pub max_weekly_transfer : Option Decimal
  pub max_transfers_per_hour : Option ℕ

-- `DAILY_CAP_DEFAULT`, `WEEKLY_CAP_DEFAULT`, `VELOCITY_DEFAULT`, in cents and in transfers
abbrev pub daily_cap_default : ℤ
daily_cap_default = pos 1000000

abbrev pub weekly_cap_default : ℤ
weekly_cap_default = pos 50000000

abbrev pub velocity_default : ℕ
velocity_default = 20

abbrev cap_or : Option Decimal → ℤ → ℤ
cap_or none default = default
cap_or (some d) default = money d

abbrev count_or : Option ℕ → ℕ → ℕ
count_or none default = default
count_or (some n) default = n

-- `Policy.from_settings`
unfoldable pub from_settings : Settings → Policy
from_settings s = record {
  max_auto = money s.approval_required_above;
  max_with_confirm = money s.max_transaction_amount;
  reversible_under = money s.approval_required_above;
  max_daily = cap_or s.max_daily_transfer daily_cap_default;
  max_weekly = cap_or s.max_weekly_transfer weekly_cap_default;
  max_per_hour = count_or s.max_transfers_per_hour velocity_default;
  locked_sleeves = "locked" ∷ [];
  yield_fallback = "savings";
}

unfoldable pub mem_str : String → List String → Bool
mem_str s [] = false
mem_str s (x ∷ xs) = str_eq x s || mem_str s xs

-- `Policy.is_locked`
unfoldable pub is_locked : Policy → String → Bool
unfolding mem_str
is_locked p sleeve = mem_str sleeve p.locked_sleeves

-- a reason that is appended under a test
abbrev pub when : Bool → Reason → List Reason
when b r = if b then r ∷ [] else []

-- `check_amount`
unfoldable pub check_amount : Policy → ℤ → List Reason
check_amount p amount =
    when (leb_ℤ amount (pos 0)) non_positive_amount
    ++ when (ltb_ℤ p.max_with_confirm amount) over_limit

-- `needs_confirm`
unfoldable pub needs_confirm : Policy → ℤ → Bool
needs_confirm p amount = ltb_ℤ p.max_auto amount

-- `free_after_obligations`
unfoldable pub free_after_obligations : ℤ → ℤ → ℤ → ℤ
free_after_obligations spendable required reserved =
    spendable -ℤ max_ℤ (pos 0) (required -ℤ reserved)

-- `affordable_cap`
unfoldable pub affordable_cap : Policy → ℤ → ℤ → ℤ → ℤ
affordable_cap p spendable required reserved =
    let cap = min_ℤ (free_after_obligations spendable required reserved) p.max_auto in
    if ltb_ℤ (pos 0) cap then cap else pos 0

-- the instant of a datetime, and whether it is at or after another; a naive one never is
abbrev pub is_since : Moment → ℕ → Bool
is_since (naive t) since = false
is_since (aware t) since = leb since t

-- a settled send: an executed `transfer` receipt that is at or after `since`
unfoldable pub is_settled : ℕ → Receipt → Bool
unfolding is_executed
is_settled since r = is_since r.at since && (is_executed r.status && str_eq r.action "transfer")

abbrev pub amount_of : Option Decimal → ℤ
amount_of none = pos 0
amount_of (some d) = money d

unfoldable pub sum_settled : ℕ → List Receipt → ℤ
sum_settled since [] = pos 0
sum_settled since (r ∷ rs) =
    (if is_settled since r then amount_of r.amount else pos 0) +ℤ sum_settled since rs

-- `settled_outbound_since`
unfoldable pub settled_outbound_since : Ledger → ℕ → ℤ
unfolding sum_settled
settled_outbound_since l since = sum_settled since l.receipts

-- the loop of `reserved_outbound` over the challenges
unfoldable pub sum_open : ℕ → Dict Challenge → ℤ
sum_open now [] = pos 0
sum_open now ((id, c) ∷ cs) = (if is_open c now then money c.amount else pos 0) +ℤ sum_open now cs

-- `reserved_outbound`
unfoldable pub reserved_outbound : Ledger → ℕ → ℤ
unfolding sum_open
reserved_outbound l now = sum_open now l.challenges

pub record Zone : Type 0 where
  pub midnight : ℕ → ℕ
  pub weekday : ℕ → ℕ
  pub days_before : ℕ → ℕ → ℕ

-- `_day_start`
unfoldable pub day_start : Zone → ℕ → ℕ
day_start z at = z.midnight at

-- `_week_start`
unfoldable pub week_start : Zone → ℕ → ℕ
unfolding day_start
week_start z at = z.days_before (day_start z at) (z.weekday (day_start z at))

-- `daily_usage` and `weekly_usage`
unfoldable pub daily_usage : Zone → Ledger → ℕ → ℤ
unfolding day_start
daily_usage z l at = settled_outbound_since l (day_start z at) +ℤ reserved_outbound l at

unfoldable pub weekly_usage : Zone → Ledger → ℕ → ℤ
unfolding week_start
weekly_usage z l at = settled_outbound_since l (week_start z at) +ℤ reserved_outbound l at

unfoldable pub count_settled : ℕ → List Receipt → ℕ
count_settled since [] = 0
count_settled since (r ∷ rs) =
    let rest = count_settled since rs in if is_settled since r then suc rest else rest

-- `mutations_in_window`
unfoldable pub mutations_in_window : Ledger → ℕ → ℕ → ℕ
unfolding count_settled
mutations_in_window l minutes now = count_settled (now - minutes * 60) l.receipts

pub record LimitReport : Type 0 where
  pub allowed : Bool
  pub reasons : List Reason
  pub cap : ℤ

-- the three checks that read the ledger
unfoldable pub usage_reasons : Zone → Policy → ℤ → Ledger → ℕ → List Reason
usage_reasons z p amount l at =
    when (ltb_ℤ p.max_daily (daily_usage z l at +ℤ amount)) daily_cap
    ++ (when (ltb_ℤ p.max_weekly (weekly_usage z l at +ℤ amount)) weekly_cap
        ++ when (leb p.max_per_hour (mutations_in_window l 60 at)) velocity)

abbrev optional_usage : Zone → Policy → ℤ → Option Ledger → ℕ → List Reason
optional_usage z p amount none at = []
optional_usage z p amount (some l) at = usage_reasons z p amount l at

-- the codes that block; `evaluate_limits` writes no other
abbrev is_limit : Reason → Bool
is_limit non_positive_amount = true
is_limit over_limit = true
is_limit locked_sleeve = true
is_limit over_balance = true
is_limit daily_cap = true
is_limit weekly_cap = true
is_limit velocity = true
is_limit _ = false

unfoldable pub none_known : List Reason → Bool
none_known [] = true
none_known (r ∷ rs) = not (is_limit r) && none_known rs

unfoldable pub limit_reasons :
    Zone → Policy → ℤ → String → ℤ → ℤ → ℤ → Option Ledger → ℕ → List Reason
unfolding check_amount usage_reasons
limit_reasons z p amount sleeve spendable required reserved l at =
    check_amount p amount
    ++ (when (is_locked p sleeve) locked_sleeve
        ++ (when (ltb_ℤ (free_after_obligations spendable required reserved) amount) over_balance
            ++ optional_usage z p amount l at))

-- `evaluate_limits`
unfoldable pub evaluate_limits :
    Zone → Policy → ℤ → String → ℤ → ℤ → ℤ → Option Ledger → ℕ → LimitReport
unfolding limit_reasons none_known
evaluate_limits z p amount sleeve spendable required reserved l at =
    let reasons = limit_reasons z p amount sleeve spendable required reserved l at in
    record {
      allowed = none_known reasons;
      reasons = reasons;
      cap = affordable_cap p spendable required reserved;
    }

pub data LimitVerdict : Type 0 where
  allow confirm block : LimitVerdict

pub record LimitDecision : Type 0 where
  pub verdict : LimitVerdict
  pub report : LimitReport
  pub confirm_needed : Bool

-- `classify_limits`
unfoldable pub classify_limits :
    Zone → Policy → ℤ → String → ℤ → ℤ → ℤ → Option Ledger → ℕ → LimitDecision
unfolding needs_confirm
classify_limits z p amount sleeve spendable required reserved l at =
    let report = evaluate_limits z p amount sleeve spendable required reserved l at in
    if report.allowed
    then (if needs_confirm p amount
        then record { verdict = confirm; report = report; confirm_needed = true }
        else record { verdict = allow; report = report; confirm_needed = false })
    else record { verdict = block; report = report; confirm_needed = false }
