-- ===== src/Settlement/Utterances.antt =====
-- `_handle_utterance` of miriam_agent/orchestrator.py, from the action that its parsers have found in
-- the words of the user, which is an argument here. The turn that settles a pending Paj code, the
-- live card and the narration are left out.
pub mod Authorised
use miriam.Prelude.{
  ℕ, String, ℤ, pos, Bool, true, false, ◌&&◌, ◌||◌, not, Option, none, some, List, [], ◌∷◌,
  if◌then◌else◌,
}
use miriam.Decimal.{Decimal}
use miriam.Audit.{Receipt, AuditRow}
use miriam.Ledger.{Ledger, Result, ok, err}
use miriam.State.{
  HandlerState, ProposedAction, ActionType, Decision, NextMode, act, ask, ActionChoice, allow,
  allow_smaller, deny, defer, build_state,
}
use miriam.Store.{LedgerStore}
use miriam.TransferReceipts.{Outcome, Done}
use miriam.Transfer.{World, Ended}
use miriam.Moves.{record_refusal}
use miriam.Judgment.Answers.{MoneyJudgment}
use miriam.Judgment.Decide.{decide}
use miriam.Settlement.{Orchestrator, execute_action, in_world}
use miriam.Settlement.Challenges.{amount_or_nought, create_challenge}

-- what the turn returns: the decision, the receipt, the id of a staged challenge, and the audit rows
pub record Reply : Type 0 where
  pub decision : Decision
  pub receipt : Option Receipt
  pub confirm_id : String
  pub audit : List AuditRow

-- the actions that no utterance executes
unfoldable pub is_challenge_only : ActionType → Bool
is_challenge_only ActionType.invest = true
is_challenge_only ActionType.order = true
is_challenge_only ActionType.rebalance = true
is_challenge_only ActionType.onramp = true
is_challenge_only ActionType.offramp = true
is_challenge_only ActionType.bill = true
is_challenge_only ActionType.set_allocation = true
is_challenge_only ActionType.pause = true
is_challenge_only ActionType.resume = true
is_challenge_only ActionType.save_rule = true
is_challenge_only _ = false

abbrev pub is_allowed : ActionChoice → Bool
is_allowed allow = true
is_allowed allow_smaller = true
is_allowed _ = false

abbrev pub is_refused : ActionChoice → Bool
is_refused deny = true
is_refused defer = true
is_refused _ = false

abbrev pub is_act : NextMode → Bool
is_act act = true
is_act _ = false

abbrev is_ask : NextMode → Bool
is_ask ask = true
is_ask _ = false

-- the test before `_execute`
unfoldable pub may_execute : Decision → ProposedAction → Bool
unfolding is_challenge_only
may_execute d a =
    is_act d.next_mode && (is_allowed d.action_choice && not (is_challenge_only a.type))

-- the test before `_create_challenge`
unfoldable pub may_stage : Decision → ProposedAction → Bool
unfolding is_challenge_only
may_stage d a =
    is_allowed d.action_choice
    && (is_ask d.next_mode || (is_challenge_only a.type && is_act d.next_mode))

abbrev reply : Decision → Option Receipt → String → List AuditRow → Reply
reply d r id rows = record { decision = d; receipt = r; confirm_id = id; audit = rows }

abbrev reply_of : Decision → Result Outcome → Result Reply
reply_of d (ok out) = ok (reply d (some out.receipt) "" out.audit)
reply_of d (err e) = err e

abbrev staged_reply : Decision → Result String → Result Reply
staged_reply d (ok id) = ok (reply d none id [])
staged_reply d (err e) = err e

module _ {S : Type 0} (store : LedgerStore S) (o : Orchestrator) where
  abbrev refused_turn : Decision → ProposedAction → World S → Result Reply × World S
  refused_turn d a w =
      let e = in_world store w (record_refusal store o.env a d.reasons d.id w.ledger w.store) in
      (reply_of d e.0, e.1)

  abbrev staged_turn : Decision → ProposedAction → World S → Result Reply × World S
  staged_turn d a w =
      let c = create_challenge store o.env.at d a w.ledger w.store in
      (staged_reply d c.result, record w { ledger = c.ledger; store = c.store })

  -- an action that has not been executed: staged, refused or left
  unfoldable pub unexecuted_turn : Decision → ProposedAction → World S → Result Reply × World S
  unfolding may_stage
  unexecuted_turn d a w =
      if may_stage d a
      then staged_turn d a w
      else (if is_refused d.action_choice then refused_turn d a w else (ok (reply d none "" []), w))

  abbrev pub after_execute :
      Decision → ProposedAction → World S → Option (Ended S) → Result Reply × World S
  after_execute d a w none = unexecuted_turn d a w
  after_execute d a w (some e) = (reply_of d e.0, e.1)

  -- the turn of an action, once it is decided
  unfoldable pub decided_turn : Decision → ProposedAction → World S → Result Reply × World S
  unfolding may_execute
  decided_turn d a w =
      let state = build_state w.ledger (some o.policy) (some a) (some d) o.env.at in
      if may_execute d a
      then after_execute d a w (execute_action store o state d a (amount_or_nought a.amount) w)
      else unexecuted_turn d a w

  -- `_decide`, under a fresh id, of what the judge answers
  unfoldable pub decision_for :
      String → Option MoneyJudgment → Option ProposedAction → Ledger → Decision
  decision_for id judgment action l =
      decide id (build_state l (some o.policy) action none o.env.at) l o.policy judgment none

  -- `_handle_utterance`; without an action nothing is executed or staged
  unfoldable pub handle_utterance :
      String → Option MoneyJudgment → Option ProposedAction → World S → Result Reply × World S
  unfolding decision_for
  handle_utterance id judgment action w =
      let d = decision_for id judgment action w.ledger in
      elim action [ none ↦ (ok (reply d none "" []), w) | some a ↦ decided_turn d a w ]
