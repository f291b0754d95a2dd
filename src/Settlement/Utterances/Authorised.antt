-- ===== src/Settlement/Utterances/Authorised.antt =====
-- What `_handle_utterance` of miriam_agent/orchestrator.py lets reach the rail, against the decision of
-- miriam_agent/judgment/decide.py.
use miriam.Prelude.{
  ◌≡◌, refl, arith, String, ◌⊎◌, inl, inr, true, Bool-cases, Option, none, some, [], ◌∷◌, ◌++◌,
}
use miriam.Decimal.{Decimal, money}
use miriam.Ledger.{Ledger}
use miriam.State.{
  HandlerState, ProposedAction, ActionType, Decision, NextMode, act, ask, stay_quiet, allow,
  build_state,
}
use miriam.Store.{LedgerStore}
use miriam.Transfer.{
  World, Request, TransferInstruction, execute_transfer, with_amount, instruction, amount_to_send,
}
use miriam.Transfer.Stages.{sent_by}
use miriam.Judgment.Answers.{MoneyJudgment}
use miriam.Judgment.Decide.Acting.{Authorises}
use miriam.Judgment.Decide.Agreement.{decide-Authorises}
use miriam.Settlement.{Orchestrator, execute_as, execute_action}
use miriam.Settlement.Challenges.{amount_or_nought}
use miriam.Settlement.Stored.{execute_request-calls}
use miriam.Settlement.Utterances.{
  is_act, is_refused, may_stage, after_execute, may_execute, unexecuted_turn, decided_turn,
  decision_for, handle_utterance,
}

-- The instruction is the proposal, for the whole amount, under the decision.
pub record IsProposed (l : Ledger) (a : ProposedAction) (d : Decimal) (decision : Decision)
    (i : TransferInstruction) : Type 0 where
  pub user_id : i.user_id ≡ l.user_id
  pub amount : i.amount ≡ money d
  pub counterparty : i.counterparty ≡ a.counterparty
  pub sleeve : i.sleeve ≡ a.sleeve
  pub confirm_id : i.confirm_id ≡ decision.id

may_execute-act : (d : Decision) (a : ProposedAction) → may_execute d a ≡ true → d.next_mode ≡ act
unfolding may_execute
may_execute-act d a h = by_mode d.next_mode (ground arith)
  where
    by_mode : (m : NextMode) → is_act m ≡ true → m ≡ act
    by_mode act e = refl
    by_mode ask e = absurd (ground arith)
    by_mode stay_quiet e = absurd (ground arith)

module _ {S : Type 0} (store : LedgerStore S) (o : Orchestrator) where
  abbrev state_with : Decision → ProposedAction → Ledger → HandlerState
  state_with d a l = build_state l (some o.policy) (some a) (some d) o.env.at

  abbrev request_with : Decision → ProposedAction → Decimal → Ledger → Request
  request_with d a amount l = record {
    env = o.env;
    faults = o.faults;
    zone = o.zone;
    policy = o.policy;
    rail = o.rail;
    state = state_with d a l;
    action = a;
    amount = amount;
  }

  -- an action without an amount reaches no rail, and one with an amount reaches it at most once
  abbrev Reaches : Decision → ProposedAction → Option Decimal → World S → World S → Type 0
  Reaches d a m w w' =
      (w'.calls ≡ w.calls)
      ⊎ ((amount : Decimal) × (m ≡ some amount)
          × (w'.calls ≡ w.calls ++ (sent_by store (request_with d a amount w.ledger) w ∷ [])))

  with_amount-Reaches :
      (d : Decision) (a : ProposedAction) (m : Option Decimal) (w : World S)
      → Reaches d a m w
          (with_amount store o.env o.faults o.zone o.policy o.rail
            (state_with d a w.ledger)
            a
            m
            w).1
  with_amount-Reaches d a none w = inl refl
  with_amount-Reaches d a (some amount) w =
      elim (execute_request-calls store (request_with d a amount w.ledger) w) [
        | inl same ↦ inl same
        | inr sent ↦ inr (amount, refl, sent)
      ]

  transfer-Reaches :
      (d : Decision) (a : ProposedAction) (w : World S)
      → Reaches d a a.amount w
          (execute_transfer store o.env o.faults o.zone o.policy o.rail
            (state_with d a w.ledger)
            w).1
  unfolding execute_transfer build_state
  transfer-Reaches d a w = with_amount-Reaches d a a.amount w

  unexecuted_turn-calls :
      (d : Decision) (a : ProposedAction) (w : World S)
      → (unexecuted_turn store o d a w).1.calls ≡ w.calls
  unfolding unexecuted_turn
  unexecuted_turn-calls d a w = elim (Bool-cases (may_stage d a)) [
    | inl e ↦ rw (e, unexecuted_turn)
    | inr e ↦ elim (Bool-cases (is_refused d.action_choice)) [
      | inl f ↦ rw (e, unexecuted_turn) (rw f)
      | inr f ↦ rw (e, unexecuted_turn) (rw f)
    ]
  ]

  -- what has run `_execute`
  executed_turn-Reaches :
      (d : Decision) (a : ProposedAction) (type : ActionType) (amount : Decimal) (w : World S)
      → Reaches d a a.amount w
          (after_execute store o d a w
            (execute_as store o (state_with d a w.ledger) d a amount w type)).1
  unfolding execute_as
  executed_turn-Reaches d a ActionType.transfer amount w = transfer-Reaches d a w
  executed_turn-Reaches d a ActionType.internal_move amount w = inl refl
  executed_turn-Reaches d a ActionType.lock amount w = inl refl
  executed_turn-Reaches d a ActionType.unlock amount w = inl refl
  executed_turn-Reaches d a _ amount w = inl (unexecuted_turn-calls d a w)

  decided_turn-Reaches :
      (d : Decision) (a : ProposedAction) (w : World S)
      → ((decided_turn store o d a w).1.calls ≡ w.calls)
        ⊎ ((d.next_mode ≡ act) × Reaches d a a.amount w (decided_turn store o d a w).1)
  unfolding decided_turn execute_action
  decided_turn-Reaches d a w = elim (Bool-cases (may_execute d a)) [
    | inr e ↦ rw (e, decided_turn) (inl (unexecuted_turn-calls d a w))
    | inl e ↦
        rw (e, decided_turn)
          (inr
            (may_execute-act d a e, executed_turn-Reaches d a a.type (amount_or_nought a.amount) w))
  ]

  sent_proposal :
      (d : Decision) (a : ProposedAction) (amount : Decimal) (w : World S)
      → d.action_choice ≡ allow
      → IsProposed w.ledger a amount d (sent_by store (request_with d a amount w.ledger) w)
  unfolding instruction amount_to_send build_state
  sent_proposal d a amount w choice = record {
    user_id = refl;
    amount = rw choice refl;
    counterparty = refl;
    sleeve = refl;
    confirm_id = refl;
  }

  verdict :
      (id : String) (judgment : Option MoneyJudgment) (a : ProposedAction) (amount : Decimal)
      (l : Ledger)
      → (decision_for store o id judgment (some a) l).next_mode ≡ act
      → a.amount ≡ some amount
      → (j : MoneyJudgment) × (judgment ≡ some j)
        × Authorises a amount j.intent_type.choice l o.policy
        × ((decision_for store o id judgment (some a) l).action_choice ≡ allow)
  unfolding decision_for build_state
  verdict id judgment a amount l acts given =
      decide-Authorises id (build_state l (some o.policy) (some a) none o.env.at) l o.policy
        judgment none a amount acts refl given

  -- Words move money only under a verdict. An utterance reaches the rail at most once, and only where
  -- its action has an amount and Judgment authorises it: the judge has answered with an order, the
  -- amount is above nought, within the automatic ceiling and the ceiling of a single movement and
  -- within what is free, the sleeve is open, and the action is neither funding nor a purchase. What
  -- reaches the rail is then the proposal itself: the ledger's own user, the whole amount in cents,
  -- the counterparty and the sleeve, under the id of the decision.
  pub utterance_sends_as_authorised :
      (id : String) (judgment : Option MoneyJudgment) (action : Option ProposedAction) (w : World S)
      → let d = decision_for store o id judgment action w.ledger in
        let w' = (handle_utterance store o id judgment action w).1 in
        (w'.calls ≡ w.calls)
        ⊎ ((a : ProposedAction) × (amount : Decimal) × (j : MoneyJudgment)
            × (i : TransferInstruction) × (action ≡ some a)
            × (a.amount ≡ some amount)
            × (judgment ≡ some j)
            × (w'.calls ≡ w.calls ++ (i ∷ []))
            × Authorises a amount j.intent_type.choice w.ledger o.policy
            × IsProposed w.ledger a amount d i)
  unfolding handle_utterance
  utterance_sends_as_authorised id judgment none w = inl refl
  utterance_sends_as_authorised id judgment (some a) w =
      let d = decision_for store o id judgment (some a) w.ledger in
      elim (decided_turn-Reaches d a w) [
        | inl same ↦ inl same
        | inr (acts, inl same) ↦ inl same
        | inr (acts, inr (amount, given, sent)) ↦
            let (j, answered, v, choice) = verdict id judgment a amount w.ledger acts given in
            inr (a, amount, j, _, refl, given, answered, sent, v, sent_proposal d a amount w choice)
      ]
