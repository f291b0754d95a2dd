-- ===== src/Settlement.antt =====
-- miriam_agent/hands/settlement.py: the settlement of a challenge that the user has tapped,
-- `_handle_confirm`, with `_execute` of miriam_agent/orchestrator.py, to which it dispatches. The
-- other legs (investing, orders, rebalancing, funding, bills and save rules) are named where they
-- are entered; Legs runs them. STATE after the execution, which only Voice reads, and the live card
-- are left out.
pub mod Challenges
pub mod Stored
pub mod Closed
pub mod Spent
pub mod Taps
pub mod Unexecuted
pub mod Utterances
use miriam.Prelude.{
  ℕ, String, ℤ, pos, ltb_ℤ, Bool, true, false, ◌&&◌, ◌||◌, not, Option, none, some, List, [], ◌∷◌,
  Dict, lookup, insert, get_or, str_eq, if◌then◌else◌,
}
use Prim.Native.String.{◌++◌ as join}
use miriam.Decimal.{Decimal, money}
use miriam.Audit.{
  Receipt, rejected, Reason, no_such_challenge, challenge_expired, challenge_mismatch, AuditRow,
  aware,
}
use miriam.Ledger.{
  Ledger, Challenge, ChallengeStatus, consumed, is_open, Result, ok, err, value_error,
  remember_receipt,
}
use miriam.Limits.{Zone, Policy}
use miriam.State.{HandlerState, ProposedAction, ActionType, Decision, act, allow, build_state}
use miriam.Store.{LedgerStore}
use miriam.TransferReceipts.{Env, Outcome, Done}
use miriam.Transfer.{World, Ended, Rail, Faults, execute_transfer}
use miriam.Moves.{move_between_sleeves}

-- what the orchestrator holds, with the clock and the fresh ids of this turn in `env`
pub record Orchestrator : Type 0 where
  pub env : Env
  pub faults : Faults
  pub zone : Zone
  pub policy : Policy
  pub rail : Rail

-- the fields of an `Event` of type "confirm" that settlement reads
pub record Tap : Type 0 where
  pub user_id : String
  pub confirm_id : String

-- the methods that settle the other actions
pub data Leg : Type 0 where
  invest order rebalance funding bill offramp save_rule : Leg

-- `TurnResult`: what the tap produced, or the leg that takes it over
pub data Turn : Type 0 where
  settled : Option Receipt → String → List AuditRow → Turn
  handed_to : Leg → Turn

-- the words of `_action_type`, with the type that `ProposedAction` makes of each: it does not know
-- "paj_otp", and its validation raises
unfoldable pub vocabulary : Dict (Result ActionType)
vocabulary =
    ("transfer", ok ActionType.transfer)
    ∷ ("purchase", ok ActionType.purchase)
    ∷ ("lock", ok ActionType.lock)
    ∷ ("unlock", ok ActionType.unlock)
    ∷ ("invest", ok ActionType.invest)
    ∷ ("order", ok ActionType.order)
    ∷ ("rebalance", ok ActionType.rebalance)
    ∷ ("set_allocation", ok ActionType.set_allocation)
    ∷ ("pause", ok ActionType.pause)
    ∷ ("resume", ok ActionType.resume)
    ∷ ("onramp", ok ActionType.onramp)
    ∷ ("offramp", ok ActionType.offramp)
    ∷ ("paj_otp", err value_error)
    ∷ []

-- `_action_type` and that validation
unfoldable pub action_type : String → Result ActionType
unfolding vocabulary
action_type a = get_or (lookup a vocabulary) (ok ActionType.no_action)

-- the dispatch on `challenge.action`
unfoldable pub leg_of : String → Option Leg
leg_of a =
    if str_eq a "invest"
    then some invest
    else if str_eq a "order" || str_eq a "set_allocation"
    then some order
    else if str_eq a "rebalance" || (str_eq a "pause" || str_eq a "resume")
    then some rebalance
    else if str_eq a "onramp"
    then some funding
    else if str_eq a "bill"
    then some bill
    else if str_eq a "offramp"
    then some offramp
    else if str_eq a "save_rule"
    then some save_rule
    else none

-- `a or b`
abbrev pub or_text : String → String → String
or_text a b = if str_eq a "" then b else a

abbrev pub put_challenge : ChallengeStatus → Challenge → Ledger → Ledger
put_challenge status c l = record l {
  challenges = insert c.id (record c { status = status }) l.challenges;
}

-- the receipt of a tap that is refused; `c` is the challenge that it names, where it shows one
abbrev amount_of : Option Challenge → Option Decimal
amount_of none = none
amount_of (some c) = some c.amount

abbrev counterparty_of : Option Challenge → String
counterparty_of none = ""
counterparty_of (some c) = c.counterparty

abbrev sleeve_of : Option Challenge → String
sleeve_of none = ""
sleeve_of (some c) = c.sleeve

unfoldable pub tap_receipt : ℕ → Tap → Option Challenge → Reason → Ledger → Receipt
tap_receipt now tap c reason l = record {
  id = join "rcpt_rejected_" (or_text tap.confirm_id "missing");
  at = aware now;
  status = rejected;
  action = "confirm";
  currency = l.currency;
  amount = amount_of c;
  counterparty = counterparty_of c;
  sleeve = sleeve_of c;
  decision_id = "";
  idempotency_key = "";
  reasons = reason ∷ [];
  sleeves_before = [];
  sleeves_after = [];
  rail_reference = "";
  confirm_id = "";
  idempotent_replay = false;
  verified = true;
}

-- the two tests of ownership
unfoldable pub is_foreign : Tap → Challenge → Ledger → Bool
is_foreign tap c l =
    (not (str_eq c.user_id "") && not (str_eq c.user_id l.user_id))
    || (not (str_eq tap.user_id "")
        && (not (str_eq c.user_id "") && not (str_eq tap.user_id c.user_id)))

-- `bound`: the amount is above nought, and the action goes where the challenge says. The amount of
-- the action is the challenge's own.
unfoldable pub is_bound : Challenge → Bool
is_bound c =
    str_eq (or_text c.counterparty c.sleeve)
      (or_text c.destination (or_text c.counterparty c.sleeve))
    && ltb_ℤ (pos 0) (money c.amount)

-- the action and the decision that are rebuilt from the challenge
abbrev pub challenged_action : ActionType → Challenge → ProposedAction
challenged_action type c = record {
  type = type;
  amount = some c.amount;
  counterparty = c.counterparty;
  sleeve = c.sleeve;
  side = "";
  category = "";
  rule = none;
}

abbrev pub challenged_decision : Challenge → Decision
challenged_decision c = record {
  id = c.decision_id;
  inflow_class = "unknown";
  next_mode = act;
  action_choice = allow;
  suggested_amount = some c.amount;
  reasons = c.reasons;
  degraded = false;
}

module _ {S : Type 0} (store : LedgerStore S) where
  -- `await store.save(ledger)` and then the return of a turn
  unfoldable pub save_turn : Turn → World S → Result Turn × World S
  save_turn t w =
      let (r, s') = store.save w.ledger w.store in
      elim r [
        | ok l' ↦ (ok t, record w { ledger = l'; store = s' })
        | err e ↦ (err e, record w { store = s' })
      ]

  -- a tap that is refused: its receipt is remembered and the ledger is saved
  unfoldable pub refuse_tap : Receipt → World S → Result Turn × World S
  refuse_tap r w =
      save_turn (settled (some r) "" []) (record w { ledger = remember_receipt r w.ledger })

  -- a challenge that is burnt, with the refusal
  unfoldable pub burn : Orchestrator → Tap → Challenge → World S → Result Turn × World S
  unfolding tap_receipt
  burn o tap c w =
      refuse_tap (tap_receipt o.env.at tap (some c) challenge_mismatch w.ledger)
        (record w { ledger = put_challenge consumed c w.ledger })

  -- how a move of Hands ends in this world
  abbrev pub in_world : World S → Done Outcome S → Ended S
  in_world w d = (d.result, record w { ledger = d.ledger; store = d.store })

  -- `_execute`, by the type of the action, with its amount: nothing where it has no way to move this
  -- type
  unfoldable pub execute_as :
      Orchestrator
      → HandlerState
      → Decision
      → ProposedAction
      → Decimal
      → World S
      → ActionType
      → Option (Ended S)
  execute_as o state d a amount w ActionType.transfer =
      some (execute_transfer store o.env o.faults o.zone o.policy o.rail state w)
  execute_as o state d a amount w ActionType.internal_move = some (
      in_world w (
        move_between_sleeves store o.env o.policy "spendable" a.sleeve amount "internal_move" d.id
          w.ledger w.store))
  execute_as o state d a amount w ActionType.lock = some (
      in_world w (
        move_between_sleeves store o.env o.policy "spendable" "locked" amount "lock" d.id w.ledger
          w.store))
  execute_as o state d a amount w ActionType.unlock = some (
      in_world w (
        move_between_sleeves store o.env o.policy "locked" "spendable" amount "unlock" d.id w.ledger
          w.store))
  execute_as o state d a amount w _ = none

  unfoldable pub execute_action :
      Orchestrator → HandlerState → Decision → ProposedAction → Decimal → World S → Option (Ended S)
  unfolding execute_as
  execute_action o state d a amount w = execute_as o state d a amount w a.type

  -- the turn after `_execute`, which raises what it raises
  abbrev pub turn_of : String → Result Outcome → Result Turn
  turn_of id (ok out) = ok (settled (some out.receipt) id out.audit)
  turn_of id (err e) = err e

  abbrev pub after_execute : Challenge → World S → Option (Ended S) → Result Turn × World S
  after_execute c w none = (ok (settled none c.id []), w)
  after_execute c w (some e) = (turn_of c.id e.0, e.1)

  -- a bound challenge is consumed, and what it stores is executed
  unfoldable pub settle_challenge :
      Orchestrator → ActionType → Challenge → World S → Result Turn × World S
  settle_challenge o type c w =
      let a = challenged_action type c in
      let d = challenged_decision c in
      let w' = record w { ledger = put_challenge consumed c w.ledger } in
      let state = build_state w'.ledger (some o.policy) (some a) (some d) o.env.at in
      after_execute c w' (execute_action o state d a c.amount w')

  unfoldable pub settle_bound : Orchestrator → Tap → Challenge → World S → Result Turn × World S
  unfolding action_type is_bound
  settle_bound o tap c w = elim (action_type c.action) [
    | err e ↦ (err e, w)
    | ok type ↦ if is_bound c then settle_challenge o type c w else burn o tap c w
  ]

  -- an open challenge: whose it is, then which leg, then what it binds
  unfoldable pub confirm_open : Orchestrator → Tap → Challenge → World S → Result Turn × World S
  unfolding is_foreign leg_of
  confirm_open o tap c w =
      if is_foreign tap c w.ledger then burn o tap c w else elim (leg_of c.action) [
        | some leg ↦ (ok (handed_to leg), w)
        | none ↦ settle_bound o tap c w
      ]

  -- `_handle_confirm`
  unfoldable pub handle_confirm : Orchestrator → Tap → World S → Result Turn × World S
  unfolding tap_receipt
  handle_confirm o tap w = elim (lookup tap.confirm_id w.ledger.challenges) [
    | none ↦ refuse_tap (tap_receipt o.env.at tap none no_such_challenge w.ledger) w
    | some c ↦
        if is_open c o.env.at
        then confirm_open o tap c w
        else refuse_tap (tap_receipt o.env.at tap none challenge_expired w.ledger) w
  ]
