-- ===== src/Transfer/Stages.antt =====
-- The stages of `execute_transfer` of miriam_agent/hands/transfer.py, by what they do to the journal
-- and by which of them reach the rail.
use miriam.Prelude.{
  ◌≡◌, refl, ap, arith, ◌∙◌, String, ℤ, ◌⊎◌, inl, inr, Bool-cases, List, [], ◌∷◌, ◌++◌, lookup,
  is_some,
}
use miriam.Decimal.{money}
use miriam.Audit.{Reason, rail_failed, Trigger, confirm, system}
use miriam.Ledger.{Ledger, ok, touch, debit, remember_receipt, record_movement}
use miriam.Journal.{dispatched, confirmed, failed, safe_mark}
use miriam.Journal.Once.{safe_mark-HasKey}
use miriam.State.{require_complete}
use miriam.Store.{LedgerStore}
use miriam.Store.Race.{Result-cases}
use miriam.TransferReceipts.Saving.{Holds, Holds-from, save-Holds}
use miriam.TransferReceipts.{Outcome, decision_verdict}
use miriam.Transfer.{
  World, Request, TransferInstruction, request_key, save_and_return, refuse, keep_or, roll_back,
  booked, settle, send, limits_of, check_limits, check_decision, check_state, instruction,
  amount_to_send,
}

-- No call of the rail, the same keys in the journal, the same challenges, and a store that holds what
-- it held or a ledger with these challenges.
pub record Quiet {S : Type 0} (store : LedgerStore S) (w w' : World S) : Type 0 where
  pub calls : w'.calls ≡ w.calls
  pub keys : (k : String) → is_some (lookup k w'.journal) ≡ is_some (lookup k w.journal)
  pub challenges : w'.ledger.challenges ≡ w.ledger.challenges
  pub held : Holds store w.ledger w.store w'.store

-- One call of the rail, of an instruction.
pub record Sends {S : Type 0} (store : LedgerStore S) (sent : TransferInstruction) (w w' : World S)
    : Type 0 where
  pub calls : w'.calls ≡ w.calls ++ (sent ∷ [])
  pub keys : (k : String) → is_some (lookup k w'.journal) ≡ is_some (lookup k w.journal)
  pub challenges : w'.ledger.challenges ≡ w.ledger.challenges
  pub held : Holds store w.ledger w.store w'.store

module _ {S : Type 0} (store : LedgerStore S) where
  saved-challenges :
      (l : Ledger) (s : S) {l' : Ledger} → (store.save l s).0 ≡ ok l' → l'.challenges ≡ l.challenges
  unfolding touch
  saved-challenges l s h = ap (λ (x : Ledger). x.challenges) (store.save-ok l s h)

  booked-challenges :
      (q : Request) (amount : ℤ) (ref : String) (l : Ledger)
      → (booked store q amount ref l).1.challenges ≡ l.challenges
  unfolding booked remember_receipt record_movement debit
  booked-challenges q amount ref l = ground arith

  booked-user :
      (q : Request) (amount : ℤ) (ref : String) (l : Ledger)
      → (booked store q amount ref l).1.user_id ≡ l.user_id
  unfolding booked remember_receipt record_movement debit
  booked-user q amount ref l = ground arith

  save_and_return-Quiet : (o : Outcome) (w : World S) → Quiet store w (save_and_return store o w).1
  unfolding save_and_return
  save_and_return-Quiet o w = elim (Result-cases (store.save w.ledger w.store).0) [
    | inl (l, e) ↦
        rw (e, save_and_return)
          (record {
            calls = refl;
            keys = λ k. refl;
            challenges = saved-challenges w.ledger w.store e;
            held = save-Holds store w.ledger w.ledger w.store refl refl;
          })
    | inr (x, e) ↦
        rw (e, save_and_return)
          (record {
            calls = refl;
            keys = λ k. refl;
            challenges = refl;
            held = save-Holds store w.ledger w.ledger w.store refl refl;
          })
  ]

  refuse-Quiet :
      (q : Request) (reasons : List Reason) (amount : ℤ) (t : Trigger) (w : World S)
      → Quiet store w (refuse store q reasons amount t w).1
  unfolding refuse remember_receipt
  refuse-Quiet q reasons amount t w =
      let h = save_and_return-Quiet _ _ in
      record { calls = h.calls; keys = h.keys; challenges = h.challenges; held = h.held }

  keep_or-challenges :
      (l : Ledger) (s : S) → (keep_or store (store.save l s) l).0.challenges ≡ l.challenges
  keep_or-challenges l s = elim (Result-cases (store.save l s).0) [
    | inl (l', e) ↦ rw e (saved-challenges l s e)
    | inr (x, e) ↦ rw e
  ]

  keep_or-Holds :
      (l₀ l : Ledger) (s : S)
      → l.user_id ≡ l₀.user_id
      → l.challenges ≡ l₀.challenges
      → Holds store l₀ s (keep_or store (store.save l s) l).1
  keep_or-Holds l₀ l s u c = elim (Result-cases (store.save l s).0) [
    | inl (l', e) ↦ rw e (save-Holds store l₀ l s u c)
    | inr (x, e) ↦ rw e (save-Holds store l₀ l s u c)
  ]

  roll_back-Quiet :
      (q : Request) (amount : ℤ) (ref : String) (w : World S)
      → Quiet store w (roll_back store q amount ref w.ledger w).1
  unfolding roll_back remember_receipt
  roll_back-Quiet q amount ref w = record {
    calls = refl;
    keys = λ k. safe_mark-HasKey k q.faults.settle_mark_lost failed (request_key q) ref w.journal;
    challenges = keep_or-challenges _ w.store;
    held = keep_or-Holds w.ledger _ w.store refl refl;
  }

  settle-Quiet :
      (q : Request) (amount : ℤ) (ref : String) (w : World S)
      → Quiet store w (settle store q amount ref w).1
  unfolding settle
  settle-Quiet q amount ref w = elim (Result-cases (booked store q amount ref w.ledger).0) [
    | inr (x, e) ↦ rw (e, settle) (roll_back-Quiet q amount ref w)
    | inl (u, e) ↦
        elim (Result-cases (store.save (booked store q amount ref w.ledger).1 w.store).0) [
          | inr (x, f) ↦
              rw (e, settle)
                (rw f (
                  let h = roll_back-Quiet q amount ref (record w {
                    store = (store.save (booked store q amount ref w.ledger).1 w.store).1;
                  }) in
                  record {
                    calls = h.calls;
                    keys = h.keys;
                    challenges = h.challenges;
                    held =
                        Holds-from store w.ledger w.store _ _
                          (store.save-err (booked store q amount ref w.ledger).1 w.store f) h.held;
                  }))
          | inl (l', f) ↦
              rw (e, settle)
                (rw f (record {
                  calls = refl;
                  keys = λ k.
                      safe_mark-HasKey k q.faults.settle_mark_lost confirmed (request_key q) ref
                        w.journal;
                  challenges = saved-challenges _ _ f ∙ booked-challenges q amount ref w.ledger;
                  held =
                      save-Holds store w.ledger (booked store q amount ref w.ledger).1 w.store
                        (booked-user q amount ref w.ledger)
                        (booked-challenges q amount ref w.ledger);
                }))
        ]
  ]

  abbrev pub dispatched_world : Request → ℤ → World S → World S
  dispatched_world q amount w = record w {
    journal = safe_mark q.faults.dispatch_mark_lost dispatched (request_key q) "" w.journal;
    calls = w.calls ++ (instruction store q amount w.ledger ∷ []);
  }

  marked-keys :
      (q : Request) (w : World S) (k : String)
      → is_some
          (lookup k (safe_mark q.faults.dispatch_mark_lost dispatched (request_key q) "" w.journal))
        ≡ is_some (lookup k w.journal)
  marked-keys q w k =
      safe_mark-HasKey k q.faults.dispatch_mark_lost dispatched (request_key q) "" w.journal

  send-Sends :
      (q : Request) (amount : ℤ) (w : World S)
      → Sends store (instruction store q amount w.ledger) w (send store q amount w).1
  unfolding send
  send-Sends q amount w =
      let i = instruction store q amount w.ledger in
      let d = dispatched_world q amount w in
      elim (Bool-cases (q.rail.execute i).ok) [
        | inl e ↦
            let h = settle-Quiet q amount (q.rail.execute i).reference d in
            rw e (record {
              calls = h.calls;
              challenges = h.challenges;
              held = h.held;
              keys = λ k. h.keys k ∙ marked-keys q w k;
            })
        | inr e ↦
            let h = refuse-Quiet q (rail_failed ∷ []) amount confirm (record d {
              journal = safe_mark q.faults.settle_mark_lost failed (request_key q) "" d.journal;
            }) in
            rw e (record {
              calls = h.calls;
              challenges = h.challenges;
              held = h.held;
              keys = λ k.
                  h.keys k
                  ∙ safe_mark-HasKey k q.faults.settle_mark_lost failed (request_key q) "" d.journal
                  ∙ marked-keys q w k;
            })
      ]

  -- what the request sends, of the amount that its decision lets it send
  abbrev pub sent_by : Request → World S → TransferInstruction
  sent_by q w = instruction store q (amount_to_send q.state.decision q.amount) w.ledger

  -- A stage after the claim reaches the rail at most once, with what the request sends.
  abbrev pub AtMostOne : TransferInstruction → World S → World S → Type 0
  AtMostOne i w w' = Quiet store w w' ⊎ Sends store i w w'

  check_limits-AtMostOne :
      (q : Request) (amount : ℤ) (w : World S)
      → AtMostOne (instruction store q amount w.ledger) w (check_limits store q amount w).1
  unfolding check_limits
  check_limits-AtMostOne q amount w =
      elim (Bool-cases (limits_of store q amount w.ledger).allowed) [
        | inl e ↦ rw e (inr (send-Sends q amount w))
        | inr e ↦
            rw e (inl (refuse-Quiet q (limits_of store q amount w.ledger).reasons amount system w))
      ]

  check_decision-AtMostOne :
      (q : Request) (w : World S) → AtMostOne (sent_by q w) w (check_decision store q w).1
  unfolding check_decision
  check_decision-AtMostOne q w = elim (Bool-cases (decision_verdict q.state.decision).0) [
    | inl e ↦ rw e (check_limits-AtMostOne q (amount_to_send q.state.decision q.amount) w)
    | inr e ↦
        rw e (inl (refuse-Quiet q (decision_verdict q.state.decision).1 (money q.amount) system w))
  ]

  pub check_state-AtMostOne :
      (q : Request) (w : World S) → AtMostOne (sent_by q w) w (check_state store q w).1
  unfolding check_state
  check_state-AtMostOne q w = elim (Result-cases (require_complete q.state)) [
    | inl (u, e) ↦ rw (e, check_state) (check_decision-AtMostOne q w)
    | inr (x, e) ↦
        rw (e, check_state)
          (inl (record { calls = refl; keys = λ k. refl; challenges = refl; held = inl refl }))
  ]
