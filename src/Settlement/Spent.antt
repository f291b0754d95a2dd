-- ===== src/Settlement/Spent.antt =====
-- A challenge that a tap has settled, in `_handle_confirm` of miriam_agent/hands/settlement.py, on the
-- ledger that a later turn loads from the store.
use miriam.Prelude.{
  ◌⊎◌, ◌≡◌, refl, sym, arith, ℕ, String, inl, inr, true, Bool-cases, none, some, Option-cases,
  lookup, lookup-insert_self,
}
use mathlib.Core.Path.{subst}
use miriam.Ledger.{Ledger, Challenge, consumed, is_open, remember_receipt, ok}
use miriam.State.{ActionType, build_state}
use miriam.Store.{LedgerStore}
use miriam.Store.Race.{Result-cases}
use miriam.TransferReceipts.Saving.{Holds, Holds-from, save-Holds}
use miriam.Transfer.{World, Request, claim_key, execute_request, execute_transfer}
use miriam.Transfer.Stages.{check_state-AtMostOne}
use miriam.Moves.Frames.{move_between_sleeves-Holds}
use miriam.Settlement.{
  Orchestrator, Tap, Turn, tap_receipt, action_type, leg_of, put_challenge, is_foreign, is_bound,
  save_turn, refuse_tap, burn, execute_action, settle_challenge, settle_bound, confirm_open,
  handle_confirm,
}
use miriam.Settlement.Stored.{claim_key-frame, request_of}
use miriam.Settlement.Closed.{Inert, NotOpen, closed_tap}

module _ {S : Type 0} (store : LedgerStore S) where
  save_turn-Holds :
      (l₀ : Ledger) (t : Turn) (w : World S)
      → w.ledger.user_id ≡ l₀.user_id
      → w.ledger.challenges ≡ l₀.challenges
      → Holds store l₀ w.store (save_turn store t w).1.store
  unfolding save_turn
  save_turn-Holds l₀ t w u c = elim (Result-cases (store.save w.ledger w.store).0) [
    | inl (l, e) ↦ rw (e, save_turn) (save-Holds store l₀ w.ledger w.store u c)
    | inr (x, e) ↦ rw (e, save_turn) (save-Holds store l₀ w.ledger w.store u c)
  ]

  burn-Holds :
      (o : Orchestrator) (tap : Tap) (c : Challenge) (w : World S)
      → Holds store (put_challenge consumed c w.ledger) w.store (burn store o tap c w).1.store
  unfolding burn refuse_tap tap_receipt remember_receipt
  burn-Holds o tap c w = save_turn-Holds (put_challenge consumed c w.ledger) _ _ refl refl

  execute_request-Holds :
      (q : Request) (w : World S) → Holds store w.ledger w.store (execute_request store q w).1.store
  unfolding execute_request
  execute_request-Holds q w =
      let (calls, same, kept) = claim_key-frame q w in
      let from = λ (s : S) (h : Holds store (claim_key q w).1.ledger (claim_key q w).1.store s).
        Holds-from store w.ledger w.store (claim_key q w).1.store s kept
          (subst (λ x. Holds store x (claim_key q w).1.store s) same h) in
      elim (Option-cases (claim_key q w).0) [
        | inr (r, e) ↦ rw (e, execute_request) (inl kept)
        | inl e ↦
            rw (e, execute_request)
              (elim (check_state-AtMostOne store q (claim_key q w).1) [
                | inl quiet ↦ from _ quiet.held
                | inr sends ↦ from _ sends.held
              ])
      ]

  settle_challenge-Holds :
      (o : Orchestrator) (type : ActionType) (c : Challenge) (w : World S)
      → Holds store
          (put_challenge consumed c w.ledger)
          w.store
          (settle_challenge store o type c w).1.store
  unfolding settle_challenge execute_action execute_transfer build_state
  settle_challenge-Holds o ActionType.transfer c w =
      execute_request-Holds (request_of store o c (put_challenge consumed c w.ledger))
        (record w { ledger = put_challenge consumed c w.ledger })
  settle_challenge-Holds o ActionType.internal_move c w =
      move_between_sleeves-Holds store o.env o.policy _ _ _ _ _ _ w.store
  settle_challenge-Holds o ActionType.lock c w =
      move_between_sleeves-Holds store o.env o.policy _ _ _ _ _ _ w.store
  settle_challenge-Holds o ActionType.unlock c w =
      move_between_sleeves-Holds store o.env o.policy _ _ _ _ _ _ w.store
  settle_challenge-Holds o _ c w = inl refl

  -- the id as the key of the challenge, and the action as one that is settled here
  abbrev SettledHere : Orchestrator → Tap → Challenge → World S → Type 0
  SettledHere o tap c w =
      (lookup tap.confirm_id w.ledger.challenges ≡ some c)
      × (c.id ≡ tap.confirm_id)
      × (is_open c o.env.at ≡ true)
      × (leg_of c.action ≡ none)
      × ((type : ActionType) × (action_type c.action ≡ ok type))

  spent :
      (o : Orchestrator) (tap : Tap) (c : Challenge) (w : World S)
      → SettledHere o tap c w
      → Holds store
          (put_challenge consumed c w.ledger)
          w.store
          (handle_confirm store o tap w).1.store
  unfolding handle_confirm confirm_open settle_bound
  spent o tap c w (found, named, live, here, (type, known)) =
      rw (found, handle_confirm)
        (rw live (elim (Bool-cases (is_foreign tap c w.ledger)) [
          | inl e ↦ rw e (burn-Holds o tap c w)
          | inr e ↦ rw e (
              rw (here, confirm_open)
                (rw (known, settle_bound)
                  (elim (Bool-cases (is_bound c)) [
                    | inl b ↦ rw b (settle_challenge-Holds o type c w)
                    | inr b ↦ rw b (burn-Holds o tap c w)
                  ])))
        ]))

  consumed-NotOpen :
      (id : String) (c : Challenge) (l k : Ledger) (at : ℕ)
      → c.id ≡ id
      → k.challenges ≡ (put_challenge consumed c l).challenges
      → NotOpen at id k
  unfolding is_open
  consumed-NotOpen id c l k at named same x e =
      let held : lookup id k.challenges ≡ some (record c { status = consumed }) =
        rw same (
          rw (sym named) (lookup-insert_self c.id (record c { status = consumed }) l.challenges)) in
      ground (arith, e, held)

  -- the world of a later turn, with the ledger that it has loaded
  abbrev loaded : Ledger → World S → World S
  loaded l w = record w { ledger = l }

  -- A confirmation that has been written down is used once. After a tap on an open challenge that is
  -- kept under its own id and is for a transfer, a lock, an unlock or another action that is settled
  -- here, on every path of that tap (the challenge belongs to someone else, it is not bound, the
  -- action runs, is refused, fails or raises), either the store holds what it held before the tap,
  -- since the tap has saved nothing, or a second tap of the id, at any instant, on the ledger that
  -- the store then loads for the user moves nothing: no call or reversal on the rail, no journal
  -- entry, and the balances, the rent reserve, the movements, the processed keys and the challenges
  -- stay.
  pub second_tap-Inert :
      (o o' : Orchestrator) (tap tap' : Tap) (c : Challenge) (w : World S)
      → SettledHere o tap c w
      → tap'.confirm_id ≡ tap.confirm_id
      → let w' = (handle_confirm store o tap w).1 in
        (w'.store ≡ w.store)
        ⊎ ((l : Ledger) × (store.load w.ledger.user_id w'.store ≡ ok (some l))
            × Inert (loaded l w') (handle_confirm store o' tap' (loaded l w')).1)
  second_tap-Inert o o' tap tap' c w h same =
      let w' = (handle_confirm store o tap w).1 in
      elim (spent o tap c w h) [
        | inl e ↦ inl e
        | inr (l, held, closed) ↦ inr (
          l,
          held,
          closed_tap store o' tap' (loaded l w')
              (rw same (consumed-NotOpen tap.confirm_id c w.ledger l o'.env.at h.1 closed)),
        )
      ]
