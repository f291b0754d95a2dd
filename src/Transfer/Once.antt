-- ===== src/Transfer/Once.antt =====
-- The calls of the rail by `execute_transfer` of miriam_agent/hands/transfer.py, over attempts by
-- workers that share the journal and the store.
use mathlib.Core.Bool.{false≢true}
use mathlib.Core.Path.{subst}
use miriam.Prelude.{
  ◌≡◌, refl, sym, ◌∙◌, ap, arith, ℕ, ℤ, ◌+◌, ◌≤◌, String, ◌⊎◌, inl, inr, Bool-cases, Option, none,
  some, Option-cases, List, [], ◌∷◌, ◌++◌, lookup, is_some, if◌then◌else◌, str_eq, eq_iff,
}
use miriam.Decimal.{Decimal}
use miriam.Ledger.{Ledger}
use miriam.Limits.{Zone, Policy}
use miriam.Journal.Once.{HasKey, reserve-HasKey, reserve_leaves_key, reserve-won_iff}
use miriam.State.{HandlerState, ProposedAction}
use miriam.Store.{LedgerStore}
use miriam.TransferReceipts.{Env}
use miriam.Transfer.{
  World, Ended, Request, Faults, Rail, TransferInstruction, request_key, claim_key, execute_request,
  execute_transfer, with_amount, instruction,
}
use miriam.Transfer.Stages.{Quiet, Sends, sent_by, check_state-AtMostOne}

-- How many of the calls that reached the rail carry a key.
abbrev pub count : String → List TransferInstruction → ℕ
count key [] = 0
count key (i ∷ is) = (if str_eq i.idempotency_key key then 1 else 0) + count key is

count-append :
    (key : String) (is : List TransferInstruction) (i : TransferInstruction)
    → count key (is ++ (i ∷ [])) ≡ count key is + (if str_eq i.idempotency_key key then 1 else 0)
count-append key [] i = omega arith
count-append key (x ∷ is) i = omega (arith, count-append key is i)

-- The rail has seen a key at most once, and then the journal holds it.
pub record IsOnce {S : Type 0} (key : String) (w : World S) : Type 0 where
  pub at_most : count key w.calls ≤ 1
  pub claimed : (count key w.calls ≡ 0) ⊎ HasKey key w.journal

-- What a worker brings to one call of `execute_transfer`.
pub record Attempt : Type 0 where
  pub env : Env
  pub faults : Faults
  pub zone : Zone
  pub policy : Policy
  pub rail : Rail
  pub state : HandlerState
  pub ledger : Ledger

module _ {S : Type 0} where
  claim_key-calls : (q : Request) (w : World S) → (claim_key q w).1.calls ≡ w.calls
  unfolding claim_key
  claim_key-calls q w = ground arith

  claim_key-HasKey :
      (k : String) (q : Request) (w : World S)
      → HasKey k w.journal
      → HasKey k (claim_key q w).1.journal
  unfolding claim_key
  claim_key-HasKey k q w h =
      ground (arith, reserve-HasKey k (request_key q) w.ledger.user_id w.journal h)

  claim_key-won :
      (q : Request) (w : World S)
      → (claim_key q w).0 ≡ none
      → (lookup (request_key q) w.journal ≡ none) × HasKey (request_key q) (claim_key q w).1.journal
  unfolding claim_key
  claim_key-won q w h = ground (
    arith,
    (reserve-won_iff (request_key q) w.ledger.user_id w.journal).0,
    reserve_leaves_key (request_key q) w.ledger.user_id w.journal,
  )

  Quiet-IsOnce :
      {store : LedgerStore S} (key : String) {w w' : World S}
      → Quiet store w w'
      → IsOnce key w
      → IsOnce key w'
  Quiet-IsOnce key h i = record {
    at_most = rw (h.calls) i.at_most;
    claimed = rw (h.calls, h.keys key) i.claimed;
  }

  claimed_IsOnce :
      (key : String) (q : Request) (w : World S) → IsOnce key w → IsOnce key (claim_key q w).1
  claimed_IsOnce key q w i = record {
    at_most = rw (claim_key-calls q w) i.at_most;
    claimed = elim i.claimed [
      | inl unsent ↦ inl (rw (claim_key-calls q w) unsent)
      | inr held ↦ inr (claim_key-HasKey key q w held)
    ];
  }

  -- The winner of a claim finds its key unsent, whatever the other keys.
  Sends-IsOnce :
      {store : LedgerStore S} (key : String) (q : Request) (sent : TransferInstruction)
      (w w' : World S)
      → sent.idempotency_key ≡ request_key q
      → (claim_key q w).0 ≡ none
      → IsOnce key w
      → Sends store sent (claim_key q w).1 w'
      → IsOnce key w'
  Sends-IsOnce key q sent w w' key_sent won i h =
      let (absent, present) = claim_key-won q w won in
      let seen = count-append key w.calls sent in
      let all : w'.calls ≡ w.calls ++ (sent ∷ []) =
        h.calls ∙ ap (λ cs. cs ++ (sent ∷ [])) (claim_key-calls q w) in
      elim (Bool-cases (str_eq sent.idempotency_key key)) [
        | inl same ↦
            let e : request_key q ≡ key = sym key_sent ∙ (eq_iff sent.idempotency_key key).0 same in
            let unsent : count key w.calls ≡ 0 = elim i.claimed [
              | inl z ↦ z
              | inr held ↦ absurd (unclaimed key q w absent e held)
            ] in
            record {
              at_most = rw all (rw seen (rw (same, unsent) (omega arith)));
              claimed =
                  inr (rw (h.keys key) (subst (λ k. HasKey k (claim_key q w).1.journal) e present));
            }
        | inr other ↦ record {
          at_most = rw all (rw seen (rw other (omega (arith, i.at_most))));
          claimed = elim i.claimed [
            | inl z ↦ inl (rw all (rw seen (rw (other, z))))
            | inr held ↦ inr (rw (h.keys key) (claim_key-HasKey key q w held))
          ];
        }
      ]
    where
      unclaimed :
          (key : String) (q : Request) (w : World S)
          → lookup (request_key q) w.journal ≡ none
          → request_key q ≡ key
          → HasKey key w.journal
          → ⊥
      unclaimed key q w absent e held =
          false≢true (ap is_some (sym (subst (λ k. lookup k w.journal ≡ none) e absent)) ∙ held)

module _ {S : Type 0} (store : LedgerStore S) where
  sent_key :
      (q : Request) (amount : ℤ) (l : Ledger)
      → (instruction store q amount l).idempotency_key ≡ request_key q
  unfolding instruction
  sent_key q amount l = refl

  execute_request-IsOnce :
      (key : String) (q : Request) (w : World S)
      → IsOnce key w
      → IsOnce key (execute_request store q w).1
  unfolding execute_request
  execute_request-IsOnce key q w i = elim (Option-cases (claim_key q w).0) [
    | inr (r, e) ↦ rw (e, execute_request) (claimed_IsOnce key q w i)
    | inl won ↦
        rw (won, execute_request)
          (elim (check_state-AtMostOne store q (claim_key q w).1) [
            | inl quiet ↦ Quiet-IsOnce key quiet (claimed_IsOnce key q w i)
            | inr sends ↦
                Sends-IsOnce key q (sent_by store q (claim_key q w).1) w _ (sent_key q _ _) won i
                  sends
          ])
  ]

  with_amount-IsOnce :
      (key : String) (a : Attempt) (p : ProposedAction) (amount : Option Decimal) (w : World S)
      → IsOnce key w
      → IsOnce key (with_amount store a.env a.faults a.zone a.policy a.rail a.state p amount w).1
  with_amount-IsOnce key a p none w i = i
  with_amount-IsOnce key a p (some x) w i =
      execute_request-IsOnce key
        (record {
          env = a.env;
          faults = a.faults;
          zone = a.zone;
          policy = a.policy;
          rail = a.rail;
          state = a.state;
          action = p;
          amount = x;
        })
        w i

  -- One attempt of a worker, on the ledger that it has loaded.
  unfoldable pub attempt : Attempt → World S → Ended S
  attempt a w =
      execute_transfer store a.env a.faults a.zone a.policy a.rail a.state
        (record w { ledger = a.ledger })

  pub attempt-IsOnce :
      (key : String) (a : Attempt) (w : World S) → IsOnce key w → IsOnce key (attempt a w).1
  unfolding attempt execute_transfer
  attempt-IsOnce key a w i =
      let w' = record w { ledger = a.ledger } in
      let i' : IsOnce key w' = record { at_most = i.at_most; claimed = i.claimed } in
      elim (Option-cases a.state.proposed_action) [
        | inl nothing ↦ rw (nothing, execute_transfer) i'
        | inr (p, e) ↦ rw (e, execute_transfer) (with_amount-IsOnce key a p p.amount w' i')
      ]

  pub attempts : List Attempt → World S → World S
  attempts [] w = w
  attempts (a ∷ rest) w = attempts rest (attempt a w).1

  attempts-IsOnce :
      (key : String) (rest : List Attempt) (w : World S)
      → IsOnce key w
      → IsOnce key (attempts rest w)
  unfolding attempts
  attempts-IsOnce key [] w i = i
  attempts-IsOnce key (a ∷ rest) w i =
      attempts-IsOnce key rest (attempt a w).1 (attempt-IsOnce key a w i)

  -- From a world where the rail has seen no call, any attempts by any workers, with any ledgers,
  -- rails, policies and faults, call the rail at most once for each idempotency key.
  pub attempts_once :
      (key : String) (rest : List Attempt) (w : World S)
      → w.calls ≡ []
      → count key (attempts rest w).calls ≤ 1
  attempts_once key rest w fresh =
      (attempts-IsOnce key rest w
        (record { at_most = rw fresh (omega arith); claimed = inl (rw fresh) })).at_most
