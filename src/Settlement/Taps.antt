-- ===== src/Settlement/Taps.antt =====
-- Turns of one user and of others, one after the other, each on the ledger that it loads: taps
-- (`_handle_confirm` of miriam_agent/hands/settlement.py), declines, expiries, and sends that an
-- utterance has authorised.
use miriam.Prelude.{
  ◌≡◌, refl, ℕ, ◌≤◌, String, arith, inl, inr, Bool-cases, Option-cases, List, [], ◌∷◌, lookup,
}
use miriam.Audit.{Receipt}
use miriam.Ledger.{Ledger, Challenge, consumed, is_open, ok, err}
use miriam.State.{ActionType}
use miriam.Store.{LedgerStore}
use miriam.Store.Race.{Result-cases}
use miriam.TransferReceipts.{Done}
use miriam.Transfer.{World}
use miriam.Transfer.Once.{count, IsOnce, Attempt, attempt, attempt-IsOnce}
use miriam.Settlement.{
  Orchestrator, Tap, Turn, action_type, leg_of, put_challenge, is_foreign, is_bound, save_turn,
  refuse_tap, burn, execute_action, settle_challenge, settle_bound, confirm_open, handle_confirm,
}
use miriam.Settlement.Challenges.{loaded, decline_challenge, expire_challenge}
use miriam.Settlement.Stored.{state_of}

-- What arrives: each names the user whose ledger is loaded.
pub data Arrival : Type 0 where
  tap : Orchestrator → Tap → Arrival
  decline expire : ℕ → String → String → Arrival
  send : Attempt → Arrival

-- The calls of the rail and the journal are those of before.
abbrev SameRail : {S : Type 0} → World S → World S → Type 0
SameRail w w' = (w'.calls ≡ w.calls) × (w'.journal ≡ w.journal)

module _ {S : Type 0} (store : LedgerStore S) where
  -- a turn on the ledger of a user; one that cannot be read refuses the turn
  abbrev on_loaded : String → (Ledger → World S → World S) → World S → World S
  on_loaded user f w = elim (store.load user w.store) [
    | ok found ↦ f (loaded store user found) w
    | err e ↦ w
  ]

  abbrev put_done : {A : Type 0} → Done A S → World S → World S
  put_done d w = record w { ledger = d.ledger; store = d.store }

  abbrev tap_turn : Orchestrator → Tap → Ledger → World S → World S
  tap_turn o t l w = (handle_confirm store o t (record w { ledger = l })).1

  abbrev decline_turn : ℕ → String → Ledger → World S → World S
  decline_turn now id l w = put_done (decline_challenge store now id l w.store) w

  abbrev expire_turn : ℕ → String → Ledger → World S → World S
  expire_turn now id l w = put_done (expire_challenge store now id l w.store) w

  pub arrive : Arrival → World S → World S
  arrive (tap o t) w = on_loaded t.user_id (tap_turn o t) w
  arrive (decline now user id) w = on_loaded user (decline_turn now id) w
  arrive (expire now user id) w = on_loaded user (expire_turn now id) w
  arrive (send a) w = (attempt store a w).1

  pub arrivals : List Arrival → World S → World S
  arrivals [] w = w
  arrivals (a ∷ rest) w = arrivals rest (arrive a w)

  SameRail-IsOnce : (key : String) {w w' : World S} → SameRail w w' → IsOnce key w → IsOnce key w'
  SameRail-IsOnce key h i = record {
    at_most = rw (h.0) i.at_most;
    claimed = rw (h.0, h.1) i.claimed;
  }

  save_turn-SameRail : (t : Turn) (w : World S) → SameRail w (save_turn store t w).1
  unfolding save_turn
  save_turn-SameRail t w = elim (Result-cases (store.save w.ledger w.store).0) [
    | inl (l, e) ↦ rw (e, save_turn) (refl, refl)
    | inr (x, e) ↦ rw (e, save_turn) (refl, refl)
  ]

  refuse_tap-SameRail : (r : Receipt) (w : World S) → SameRail w (refuse_tap store r w).1
  unfolding refuse_tap
  refuse_tap-SameRail r w = save_turn-SameRail _ _

  burn-SameRail :
      (o : Orchestrator) (t : Tap) (c : Challenge) (w : World S) → SameRail w (burn store o t c w).1
  unfolding burn
  burn-SameRail o t c w = refuse_tap-SameRail _ _

  module _ (key : String) where
    settle_challenge-IsOnce :
        (o : Orchestrator) (type : ActionType) (c : Challenge) (w : World S)
        → IsOnce key w
        → IsOnce key (settle_challenge store o type c w).1
    unfolding settle_challenge execute_action attempt
    settle_challenge-IsOnce o ActionType.transfer c w i =
        let l = put_challenge consumed c w.ledger in
        attempt-IsOnce store key
          (record {
            env = o.env;
            faults = o.faults;
            zone = o.zone;
            policy = o.policy;
            rail = o.rail;
            state = state_of store o ActionType.transfer c l;
            ledger = l;
          })
          w i
    settle_challenge-IsOnce o _ c w i = SameRail-IsOnce key (refl, refl) i

    settle_bound-IsOnce :
        (o : Orchestrator) (t : Tap) (c : Challenge) (w : World S)
        → IsOnce key w
        → IsOnce key (settle_bound store o t c w).1
    unfolding settle_bound
    settle_bound-IsOnce o t c w i = elim (Result-cases (action_type c.action)) [
      | inr (x, e) ↦ rw (e, settle_bound) i
      | inl (type, e) ↦ elim (Bool-cases (is_bound c)) [
        | inl b ↦ rw (e, settle_bound) (rw b (settle_challenge-IsOnce o type c w i))
        | inr b ↦ rw (e, settle_bound) (rw b (SameRail-IsOnce key (burn-SameRail o t c w) i))
      ]
    ]

    confirm_open-IsOnce :
        (o : Orchestrator) (t : Tap) (c : Challenge) (w : World S)
        → IsOnce key w
        → IsOnce key (confirm_open store o t c w).1
    unfolding confirm_open
    confirm_open-IsOnce o t c w i = elim (Bool-cases (is_foreign t c w.ledger)) [
      | inl e ↦ rw e (SameRail-IsOnce key (burn-SameRail o t c w) i)
      | inr e ↦ elim (Option-cases (leg_of c.action)) [
        | inl f ↦ rw (e, f, confirm_open) (settle_bound-IsOnce o t c w i)
        | inr (leg, f) ↦ rw (e, f, confirm_open) i
      ]
    ]

    handle_confirm-IsOnce :
        (o : Orchestrator) (t : Tap) (w : World S)
        → IsOnce key w
        → IsOnce key (handle_confirm store o t w).1
    unfolding handle_confirm
    handle_confirm-IsOnce o t w i = elim (Option-cases (lookup t.confirm_id w.ledger.challenges)) [
      | inl e ↦ rw (e, handle_confirm) (SameRail-IsOnce key (refuse_tap-SameRail _ w) i)
      | inr (c, e) ↦ elim (Bool-cases (is_open c o.env.at)) [
        | inl f ↦ rw (e, handle_confirm) (rw f (confirm_open-IsOnce o t c w i))
        | inr f ↦ rw (e, handle_confirm) (rw f (SameRail-IsOnce key (refuse_tap-SameRail _ w) i))
      ]
    ]

    on_loaded-IsOnce :
        (user : String) (f : Ledger → World S → World S) (w : World S)
        → ((l : Ledger) → IsOnce key w → IsOnce key (f l w))
        → IsOnce key w
        → IsOnce key (on_loaded user f w)
    on_loaded-IsOnce user f w h i = elim (Result-cases (store.load user w.store)) [
      | inl (found, e) ↦ rw (e, on_loaded) (h (loaded store user found) i)
      | inr (x, e) ↦ rw (e, on_loaded) i
    ]

    put_done-IsOnce :
        {A : Type 0} (d : Done A S) (w : World S) → IsOnce key w → IsOnce key (put_done d w)
    put_done-IsOnce d w i = record { at_most = i.at_most; claimed = i.claimed }

    arrive-IsOnce : (a : Arrival) (w : World S) → IsOnce key w → IsOnce key (arrive a w)
    unfolding arrive
    arrive-IsOnce (tap o t) w i =
        on_loaded-IsOnce t.user_id (tap_turn o t) w
          (λ l j.
            handle_confirm-IsOnce o t (record w { ledger = l })
              (record { at_most = j.at_most; claimed = j.claimed }))
          i
    arrive-IsOnce (decline now user id) w i =
        on_loaded-IsOnce user (decline_turn now id) w
          (λ l j. put_done-IsOnce (decline_challenge store now id l w.store) w j) i
    arrive-IsOnce (expire now user id) w i =
        on_loaded-IsOnce user (expire_turn now id) w
          (λ l j. put_done-IsOnce (expire_challenge store now id l w.store) w j) i
    arrive-IsOnce (send a) w i = attempt-IsOnce store key a w i

    arrivals-IsOnce :
        (all : List Arrival) (w : World S) → IsOnce key w → IsOnce key (arrivals all w)
    unfolding arrivals
    arrivals-IsOnce [] w i = i
    arrivals-IsOnce (a ∷ rest) w i = arrivals-IsOnce rest (arrive a w) (arrive-IsOnce a w i)

    -- From a world where the rail has seen no call, whatever arrives in whatever order (taps of any
    -- challenge, however often, declines, expiries, and authorised sends, for any users, each on the
    -- ledger that it loads, with any failures of the store, the rail and the journal), the rail is
    -- called at most once for each idempotency key.
    pub arrivals_once :
        (all : List Arrival) (w : World S) → w.calls ≡ [] → count key (arrivals all w).calls ≤ 1
    arrivals_once all w fresh =
        (arrivals-IsOnce all w
          (record { at_most = rw fresh (omega arith); claimed = inl (rw fresh) })).at_most
