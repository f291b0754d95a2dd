-- ===== src/Settlement/Stored.antt =====
-- What `_handle_confirm` of miriam_agent/hands/settlement.py lets reach the rail.
use miriam.Prelude.{
  ◌≡◌, refl, ◌∙◌, ap, arith, ℕ, String, pos, ◌<ℤ◌, ◌⊎◌, inl, inr, true, Bool-cases, some,
  Option-cases, [], ◌∷◌, ◌++◌, lookup, lookup-All,
}
use miriam.Decimal.{money}
use miriam.Audit.{Receipt}
use miriam.Ledger.{Ledger, Challenge, consumed, is_open, ok}
use miriam.State.{ActionType, HandlerState, build_state}
use miriam.Store.{LedgerStore}
use miriam.Store.Race.{Result-cases}
use miriam.Transfer.{
  World, Request, TransferInstruction, claim_key, execute_request, execute_transfer, instruction,
  amount_to_send,
}
use miriam.Transfer.Stages.{sent_by, check_state-AtMostOne}
use miriam.Settlement.{
  Orchestrator, Tap, Turn, vocabulary, action_type, leg_of, put_challenge, is_foreign, is_bound,
  challenged_action, challenged_decision, save_turn, refuse_tap, burn, execute_action,
  settle_challenge, settle_bound, confirm_open, handle_confirm,
}

-- At most one more call of the rail, with this instruction.
abbrev pub SendsAtMost : {S : Type 0} → TransferInstruction → World S → World S → Type 0
SendsAtMost i w w' = (w'.calls ≡ w.calls) ⊎ (w'.calls ≡ w.calls ++ (i ∷ []))

-- The instruction is the one that the challenge stores, which is open, bound and the ledger's own.
pub record IsStored (now : ℕ) (l : Ledger) (c : Challenge) (i : TransferInstruction) : Type 0 where
  pub live : is_open c now ≡ true
  pub transfer : c.action ≡ "transfer"
  pub positive : pos 0 <ℤ money c.amount
  pub user_id : i.user_id ≡ l.user_id
  pub amount : i.amount ≡ money c.amount
  pub counterparty : i.counterparty ≡ c.counterparty
  pub sleeve : i.sleeve ≡ c.sleeve
  pub confirm_id : i.confirm_id ≡ c.decision_id

pub claim_key-frame :
    {S : Type 0} (q : Request) (w : World S)
    → ((claim_key q w).1.calls ≡ w.calls)
      × ((claim_key q w).1.ledger ≡ w.ledger)
      × ((claim_key q w).1.store ≡ w.store)
unfolding claim_key
claim_key-frame q w = (ground arith, ground arith, ground arith)

action_type-transfer : (a : String) → action_type a ≡ ok ActionType.transfer → a ≡ "transfer"
unfolding action_type vocabulary
action_type-transfer a h = elim (Option-cases (lookup a vocabulary)) [
  | inl e ↦ absurd (ground (arith, h, e))
  | inr (v, e) ↦
      lookup-All (λ k x. x ≡ ok ActionType.transfer → k ≡ "transfer") a vocabulary
        (
          λ x. refl,
          (
            λ x. absurd (ground (arith, x)),
            (
              λ x. absurd (ground (arith, x)),
              (
                λ x. absurd (ground (arith, x)),
                (
                  λ x. absurd (ground (arith, x)),
                  (
                    λ x. absurd (ground (arith, x)),
                    (
                      λ x. absurd (ground (arith, x)),
                      (
                        λ x. absurd (ground (arith, x)),
                        (
                          λ x. absurd (ground (arith, x)),
                          (
                            λ x. absurd (ground (arith, x)),
                            (
                              λ x. absurd (ground (arith, x)),
                              (
                                λ x. absurd (ground (arith, x)),
                                (λ x. absurd (ground (arith, x)), tt),
                              ),
                            ),
                          ),
                        ),
                      ),
                    ),
                  ),
                ),
              ),
            ),
          ),
        )
        e (ground (arith, h, e))
]

module _ {S : Type 0} (store : LedgerStore S) where
  pub execute_request-calls :
      (q : Request) (w : World S) → SendsAtMost (sent_by store q w) w (execute_request store q w).1
  unfolding execute_request
  execute_request-calls q w =
      let (calls, same, held) = claim_key-frame q w in
      elim (Option-cases (claim_key q w).0) [
        | inr (r, e) ↦ rw (e, execute_request) (inl calls)
        | inl e ↦
            rw (e, execute_request)
              (elim (check_state-AtMostOne store q (claim_key q w).1) [
                | inl quiet ↦ inl (quiet.calls ∙ calls)
                | inr sends ↦ inr (
                    sends.calls
                    ∙ ap (λ x. x ++ (sent_by store q (claim_key q w).1 ∷ [])) calls
                    ∙ ap
                        (λ l.
                          w.calls
                          ++ (instruction store q (amount_to_send q.state.decision q.amount) l
                              ∷ []))
                        same)
              ])
      ]

  save_turn-calls : (t : Turn) (w : World S) → (save_turn store t w).1.calls ≡ w.calls
  unfolding save_turn
  save_turn-calls t w = elim (Result-cases (store.save w.ledger w.store).0) [
    | inl (l, e) ↦ rw (e, save_turn)
    | inr (x, e) ↦ rw (e, save_turn)
  ]

  refuse_tap-calls : (r : Receipt) (w : World S) → (refuse_tap store r w).1.calls ≡ w.calls
  unfolding refuse_tap
  refuse_tap-calls r w = save_turn-calls _ _

  burn-calls :
      (o : Orchestrator) (tap : Tap) (c : Challenge) (w : World S)
      → (burn store o tap c w).1.calls ≡ w.calls
  unfolding burn
  burn-calls o tap c w = refuse_tap-calls _ _

  abbrev consumed_world : Challenge → World S → World S
  consumed_world c w = record w { ledger = put_challenge consumed c w.ledger }

  abbrev pub state_of : Orchestrator → ActionType → Challenge → Ledger → HandlerState
  state_of o type c l =
      build_state l (some o.policy) (some (challenged_action type c)) (some (challenged_decision c))
        o.env.at

  abbrev pub request_of : Orchestrator → Challenge → Ledger → Request
  request_of o c l = record {
    env = o.env;
    faults = o.faults;
    zone = o.zone;
    policy = o.policy;
    rail = o.rail;
    state = state_of o ActionType.transfer c l;
    action = challenged_action ActionType.transfer c;
    amount = c.amount;
  }

  abbrev stored_instruction : Orchestrator → Challenge → World S → TransferInstruction
  stored_instruction o c w =
      sent_by store (request_of o c (put_challenge consumed c w.ledger)) (consumed_world c w)

  stored_instruction-IsStored :
      (o : Orchestrator) (c : Challenge) (w : World S)
      → is_open c o.env.at ≡ true
      → action_type c.action ≡ ok ActionType.transfer
      → is_bound c ≡ true
      → IsStored o.env.at w.ledger c (stored_instruction o c w)
  unfolding instruction amount_to_send build_state is_bound
  stored_instruction-IsStored o c w h t b = record {
    live = h;
    transfer = action_type-transfer c.action t;
    positive = ground (arith, b);
    user_id = refl;
    amount = refl;
    counterparty = refl;
    sleeve = refl;
    confirm_id = refl;
  }

  settle_challenge-calls :
      (o : Orchestrator) (type : ActionType) (c : Challenge) (w : World S)
      → ((settle_challenge store o type c w).1.calls ≡ w.calls)
        ⊎ ((type ≡ ActionType.transfer)
            × ((settle_challenge store o type c w).1.calls
                ≡ w.calls ++ (stored_instruction o c w ∷ [])))
  unfolding settle_challenge execute_action execute_transfer build_state
  settle_challenge-calls o ActionType.transfer c w =
      elim (execute_request-calls (request_of o c (put_challenge consumed c w.ledger))
        (consumed_world c w)) [ inl e ↦ inl e | inr e ↦ inr (refl, e) ]
  settle_challenge-calls o _ c w = inl refl

  abbrev AsStored : Orchestrator → Challenge → World S → World S → Type 0
  AsStored o c w w' =
      (w'.calls ≡ w.calls)
      ⊎ ((i : TransferInstruction) × (w'.calls ≡ w.calls ++ (i ∷ []))
          × IsStored o.env.at w.ledger c i)

  settle_bound-AsStored :
      (o : Orchestrator) (tap : Tap) (c : Challenge) (w : World S)
      → is_open c o.env.at ≡ true
      → AsStored o c w (settle_bound store o tap c w).1
  unfolding settle_bound
  settle_bound-AsStored o tap c w h = elim (Result-cases (action_type c.action)) [
    | inr (x, e) ↦ rw (e, settle_bound) (inl refl)
    | inl (type, e) ↦ elim (Bool-cases (is_bound c)) [
      | inr b ↦ rw (e, settle_bound) (rw b (inl (burn-calls o tap c w)))
      | inl b ↦
          rw (e, settle_bound)
            (rw b (elim (settle_challenge-calls o type c w) [
              | inl same ↦ inl same
              | inr (t, sent) ↦ inr (
                stored_instruction o c w,
                sent,
                stored_instruction-IsStored o c w h (e ∙ ap (λ x. ok x) t) b,
              )
            ]))
    ]
  ]

  confirm_open-AsStored :
      (o : Orchestrator) (tap : Tap) (c : Challenge) (w : World S)
      → is_open c o.env.at ≡ true
      → AsStored o c w (confirm_open store o tap c w).1
  unfolding confirm_open
  confirm_open-AsStored o tap c w h = elim (Bool-cases (is_foreign tap c w.ledger)) [
    | inl e ↦ rw e (inl (burn-calls o tap c w))
    | inr e ↦ elim (Option-cases (leg_of c.action)) [
      | inl f ↦ rw (e, f, confirm_open) (settle_bound-AsStored o tap c w h)
      | inr (leg, f) ↦ rw (e, f, confirm_open) (inl refl)
    ]
  ]

  -- The challenge, not the sentence, is the authorisation. A tap reaches the rail at most once, and
  -- only where the id that it carries names a challenge of the ledger which is open and is for a
  -- transfer of more than nought: what reaches the rail is then an instruction for the ledger's own
  -- user with the amount (in whole cents), the counterparty, the sleeve and the decision that the
  -- challenge stores.
  pub confirm_sends_as-IsStored :
      (o : Orchestrator) (tap : Tap) (w : World S)
      → ((handle_confirm store o tap w).1.calls ≡ w.calls)
        ⊎ ((c : Challenge) × (lookup tap.confirm_id w.ledger.challenges ≡ some c)
            × (i : TransferInstruction) × ((handle_confirm store o tap w).1.calls
                ≡ w.calls ++ (i ∷ []))
            × IsStored o.env.at w.ledger c i)
  unfolding handle_confirm
  confirm_sends_as-IsStored o tap w =
      elim (Option-cases (lookup tap.confirm_id w.ledger.challenges)) [
        | inl e ↦ rw (e, handle_confirm) (inl (refuse_tap-calls _ w))
        | inr (c, e) ↦ elim (Bool-cases (is_open c o.env.at)) [
          | inr f ↦ rw (e, handle_confirm) (rw f (inl (refuse_tap-calls _ w)))
          | inl f ↦
              rw (e, handle_confirm)
                (rw f (elim (confirm_open-AsStored o tap c w f) [
                  | inl same ↦ inl same
                  | inr (i, sent, stored) ↦ inr (c, refl, i, sent, stored)
                ]))
        ]
      ]
