-- ===== src/Legs/Gate.antt =====
-- The gate before the Go host: `_handle_confirm` of miriam_agent/hands/settlement.py with the legs that
-- it dispatches to.
use miriam.Prelude.{
  ◌≡◌, refl, ap, ◌⊎◌, inl, inr, true, false, String, Option, none, some, Bool-cases, Option-cases,
  lookup,
}
use miriam.Audit.{Receipt, challenge_mismatch, no_such_challenge, challenge_expired}
use miriam.Ledger.{Challenge, consumed, is_open, Result, ok, err, remember_receipt}
use miriam.TransferReceipts.{Outcome}
use miriam.Store.{LedgerStore}
use miriam.Store.Race.{Result-cases}
use miriam.Transfer.{World, Ended}
use miriam.State.{ActionType, build_state}
use miriam.Settlement.{
  Orchestrator, execute_action, challenged_action, challenged_decision, Tap, Turn, settled,
  handed_to, Leg, leg_of, is_foreign, action_type, is_bound, save_turn, tap_receipt, put_challenge,
  refuse_tap, burn, after_execute, turn_of, settle_challenge, settle_bound, confirm_open,
  handle_confirm,
}
use miriam.Host.{Desk, Site}
use miriam.Legs.{
  Hall, TapEnd, turned, Settled, run_leg, ended_leg, site_of, enter, dispatch, handle_tap,
}

-- a turn that Hands has ended itself
abbrev pub IsEnded : Result Turn → Type 0
IsEnded (ok (handed_to leg)) = ⊥
IsEnded _ = Unit {0}

module _ {S : Type 0} (store : LedgerStore S) where
  refuse_tap-IsEnded : (r : Receipt) (w : World S) → IsEnded (refuse_tap store r w).0
  unfolding refuse_tap save_turn
  refuse_tap-IsEnded r w =
      elim (Result-cases (store.save (remember_receipt r w.ledger) w.store).0) [
        | inl (l', e) ↦ rw (e, save_turn) tt
        | inr (x, e) ↦ rw (e, save_turn) tt
      ]

  burn-IsEnded :
      (o : Orchestrator) (tap : Tap) (c : Challenge) (w : World S)
      → IsEnded (burn store o tap c w).0
  unfolding burn
  burn-IsEnded o tap c w =
      refuse_tap-IsEnded (tap_receipt o.env.at tap (some c) challenge_mismatch w.ledger)
        (record w { ledger = put_challenge consumed c w.ledger })

  turn_of-IsEnded : (id : String) (r : Result Outcome) → IsEnded (turn_of store id r)
  turn_of-IsEnded id (ok out) = tt
  turn_of-IsEnded id (err e) = tt

  after_execute-IsEnded :
      (c : Challenge) (w : World S) (e : Option (Ended S)) → IsEnded (after_execute store c w e).0
  after_execute-IsEnded c w none = tt
  after_execute-IsEnded c w (some e) = turn_of-IsEnded c.id e.0

  settle_challenge-IsEnded :
      (o : Orchestrator) (type : ActionType) (c : Challenge) (w : World S)
      → IsEnded (settle_challenge store o type c w).0
  unfolding settle_challenge
  settle_challenge-IsEnded o type c w =
      after_execute-IsEnded c (record w { ledger = put_challenge consumed c w.ledger })
        (execute_action store o
          (build_state (put_challenge consumed c w.ledger) (some o.policy)
            (some (challenged_action type c)) (some (challenged_decision c)) o.env.at)
          (challenged_decision c) (challenged_action type c) c.amount
          (record w { ledger = put_challenge consumed c w.ledger }))

  settle_bound-IsEnded :
      (o : Orchestrator) (tap : Tap) (c : Challenge) (w : World S)
      → IsEnded (settle_bound store o tap c w).0
  unfolding settle_bound
  settle_bound-IsEnded o tap c w = elim (Result-cases (action_type c.action)) [
    | inr (x, e) ↦ rw (e, settle_bound) tt
    | inl (type, e) ↦
        rw (e, settle_bound)
          (elim (Bool-cases (is_bound c)) [
            | inl f ↦ rw f (settle_challenge-IsEnded o type c w)
            | inr f ↦ rw f (burn-IsEnded o tap c w)
          ])
  ]

  -- the tap is handed to the leg of an open challenge that passes the test of the owner, and the
  -- world is as it was
  pub record IsGated (o : Orchestrator) (tap : Tap) (w : World S) (r : Result Turn × World S)
      : Type 0 where
    pub challenge : Challenge
    pub leg : Leg
    pub held : lookup tap.confirm_id w.ledger.challenges ≡ some challenge
    pub live : is_open challenge o.env.at ≡ true
    pub own : is_foreign tap challenge w.ledger ≡ false
    pub action : leg_of challenge.action ≡ some leg
    pub turn : r ≡ (ok (handed_to leg), w)

  confirm_open-IsGated :
      (o : Orchestrator) (tap : Tap) (c : Challenge) (w : World S)
      → lookup tap.confirm_id w.ledger.challenges ≡ some c
      → is_open c o.env.at ≡ true
      → IsEnded (confirm_open store o tap c w).0 ⊎ IsGated o tap w (confirm_open store o tap c w)
  unfolding confirm_open
  confirm_open-IsGated o tap c w held live = elim (Bool-cases (is_foreign tap c w.ledger)) [
    | inl f ↦ inl (rw (f, confirm_open) (burn-IsEnded o tap c w))
    | inr f ↦ elim (Option-cases (leg_of c.action)) [
      | inl e ↦ inl (rw (f, e, confirm_open) (settle_bound-IsEnded o tap c w))
      | inr (leg, e) ↦ inr (record {
        challenge = c;
        leg = leg;
        held = held;
        live = live;
        own = f;
        action = e;
        turn = rw (f, e, confirm_open);
      })
    ]
  ]

  pub handle_confirm-IsGated :
      (o : Orchestrator) (tap : Tap) (w : World S)
      → IsEnded (handle_confirm store o tap w).0 ⊎ IsGated o tap w (handle_confirm store o tap w)
  unfolding handle_confirm
  handle_confirm-IsGated o tap w = elim (Option-cases (lookup tap.confirm_id w.ledger.challenges)) [
    | inl e ↦ inl (
        rw (e, handle_confirm)
          (refuse_tap-IsEnded (tap_receipt o.env.at tap none no_such_challenge w.ledger) w))
    | inr (c, e) ↦ elim (Bool-cases (is_open c o.env.at)) [
      | inl live ↦ rw (e, live, handle_confirm) (confirm_open-IsGated o tap c w e live)
      | inr f ↦ inl (
          rw (e, f, handle_confirm)
            (refuse_tap-IsEnded (tap_receipt o.env.at tap none challenge_expired w.ledger) w))
    ]
  ]

  ended-dispatch :
      (d : Desk) (tap : Tap) (r : Result Turn) (h : Hall S)
      → IsEnded r
      → dispatch store d tap r h ≡ (turned r, h)
  unfolding dispatch
  ended-dispatch d tap (ok (settled r id audit)) h e = refl
  ended-dispatch d tap (ok (handed_to leg)) h e = elim e [ ]
  ended-dispatch d tap (err x) h e = refl

  leave-calls :
      (leg : Leg) (h : Hall S) (r : Option (Result Settled × Site S))
      → (ended_leg store leg h r).1.world.calls ≡ h.world.calls
  leave-calls leg h none = refl
  leave-calls leg h (some r) = refl

  -- the tap was gated by an open challenge that passes the test of the owner, whose leg was run from
  -- there without a call of the rail
  pub record LegIsRun (o : Orchestrator) (d : Desk) (tap : Tap) (h : Hall S) (e : TapEnd × Hall S)
      : Type 0 where
    pub challenge : Challenge
    pub leg : Leg
    pub held : lookup tap.confirm_id h.world.ledger.challenges ≡ some challenge
    pub live : is_open challenge o.env.at ≡ true
    pub own : is_foreign tap challenge h.world.ledger ≡ false
    pub action : leg_of challenge.action ≡ some leg
    pub run : e ≡ ended_leg store leg h (run_leg store leg d tap challenge (site_of store h))
    pub calls : e.1.world.calls ≡ h.world.calls

  dispatch-LegIsRun :
      (o : Orchestrator) (d : Desk) (tap : Tap) (h : Hall S) (r : Result Turn × World S)
      → IsGated o tap h.world r
      → LegIsRun o d tap h (dispatch store d tap r.0 (record h { world = r.1 }))
  unfolding dispatch enter
  dispatch-LegIsRun o d tap h r g =
      rw (g.turn, dispatch, g.held, enter)
        (record {
          challenge = g.challenge;
          leg = g.leg;
          held = g.held;
          live = g.live;
          own = g.own;
          action = g.action;
          run = refl;
          calls = leave-calls g.leg h (run_leg store g.leg d tap g.challenge (site_of store h));
        })

  -- The Go host is asked nothing new by a tap, unless the tap names an open challenge that passes
  -- the test of the owner and whose action has a leg; that leg is then run on the world as it was,
  -- and the rail of Hands is not called.
  pub handle_tap-AsksGated :
      (o : Orchestrator) (d : Desk) (tap : Tap) (h : Hall S)
      → ((handle_tap store o d tap h).1.asked ≡ h.asked)
        ⊎ LegIsRun o d tap h (handle_tap store o d tap h)
  unfolding handle_tap
  handle_tap-AsksGated o d tap h = elim (handle_confirm-IsGated o tap h.world) [
    | inl e ↦ inl (
        ap (λ (x : TapEnd × Hall S). x.1.asked)
          (ended-dispatch d tap (handle_confirm store o tap h.world).0
            (record h { world = (handle_confirm store o tap h.world).1 }) e))
    | inr g ↦ inr (dispatch-LegIsRun o d tap h (handle_confirm store o tap h.world) g)
  ]
