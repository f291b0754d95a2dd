-- ===== src/State.antt =====
-- miriam_agent/hands/state.py: STATE, which is built from the ledger and the policy. The bills, the
-- executions and the printed form of the policy are left out; of a decision it keeps all but the
-- instant, the confidences and the facts that only clients print. Of an action the user's own words
-- are left out; what the parsers read in them is kept as `category` and `rule`.
pub mod Complete
use miriam.Prelude.{
  ℕ, String, ℤ, pos, Bool, true, false, ◌&&◌, Option, none, some, List, [], ◌∷◌, ◌++◌, Dict, lookup,
  get_or, is_some, keep_last, str_eq, if◌then◌else◌,
}
use miriam.Decimal.{Decimal}
use miriam.Audit.{Receipt, Reason}
use miriam.Ledger.{
  Ledger, Track, RentFirst, PendingInflow, Result, ok, err, insufficient_state, balance,
}
use miriam.Ledger.Window.{Last30d, window, window_days}
use miriam.Limits.{Policy}

pub data ActionType : Type 0 where
  transfer purchase lock unlock yield invest internal_move order rebalance : ActionType
  set_allocation pause resume onramp offramp bill save_rule no_action : ActionType

pub record ProposedAction : Type 0 where
  pub type : ActionType
  pub amount : Option Decimal
  pub counterparty : String
  pub sleeve : String
  pub side : String
  pub category : String
  pub rule : Option (String × String)

pub data NextMode : Type 0 where
  act ask stay_quiet : NextMode

pub data ActionChoice : Type 0 where
  allow allow_smaller deny defer classify_only no_choice : ActionChoice

pub record Decision : Type 0 where
  pub id : String
  pub inflow_class : String
  pub next_mode : NextMode
  pub action_choice : ActionChoice
  pub suggested_amount : Option Decimal
  pub reasons : List Reason
  pub degraded : Bool

-- what `_missing` names
pub data Field : Type 0 where
  user_id currency policy : Field
  sleeve : String → Field

pub record HandlerState : Type 0 where
  pub as_of : ℕ
  pub user_id : String
  pub currency : String
  pub sleeves : Dict ℤ
  pub track : Track
  pub rent_first : RentFirst
  pub last_30d : Last30d
  pub pending_inflow : Option PendingInflow
  pub proposed_action : Option ProposedAction
  pub policy : Option Policy
  pub last_receipts : List Receipt
  pub decision : Option Decision
  pub is_ok : Bool
  pub missing : List Field

abbrev pub receipt_limit : ℕ
receipt_limit = 5

abbrev unless : Bool → Field → List Field
unless b f = if b then [] else f ∷ []

abbrev has_sleeve : Ledger → String → Bool
has_sleeve l s = is_some (lookup s l.sleeves)

-- `_missing`; a ledger always has a track, which its type requires
unfoldable pub missing_fields : Ledger → Option Policy → List Field
missing_fields l p =
    (if str_eq l.user_id "" then Field.user_id ∷ [] else [])
    ++ ((if str_eq l.currency "" then Field.currency ∷ [] else [])
        ++ (unless (has_sleeve l "spendable") (sleeve "spendable")
            ++ (unless (has_sleeve l "savings") (sleeve "savings")
                ++ (unless (has_sleeve l "yield") (sleeve "yield")
                    ++ (unless (has_sleeve l "locked") (sleeve "locked")
                        ++ unless (is_some p) Field.policy)))))

abbrev is_empty : List Field → Bool
is_empty [] = true
is_empty (f ∷ fs) = false

-- `build_state`: an absent sleeve is shown as zero, and named as missing
unfoldable pub build_state :
    Ledger → Option Policy → Option ProposedAction → Option Decision → ℕ → HandlerState
unfolding missing_fields balance
build_state l p action decision now =
    let missing = missing_fields l p in
    record {
      as_of = now;
      user_id = l.user_id;
      currency = l.currency;
      sleeves =
          ("spendable", balance l "spendable")
          ∷ ("savings", balance l "savings")
          ∷ ("yield", balance l "yield")
          ∷ ("locked", balance l "locked")
          ∷ [];
      track = l.track;
      rent_first = l.rent_first;
      last_30d = window window_days now l;
      pending_inflow = l.pending_inflow;
      proposed_action = action;
      policy = p;
      last_receipts = keep_last receipt_limit l.receipts;
      decision = decision;
      is_ok = is_empty missing;
      missing = missing;
    }

-- `require_complete`
unfoldable pub require_complete : HandlerState → Result (Unit {0})
require_complete s = if s.is_ok && is_empty s.missing then ok tt else err insufficient_state

-- `with_decision`
unfoldable pub with_decision : HandlerState → Decision → HandlerState
with_decision s d = record s { decision = some d }
