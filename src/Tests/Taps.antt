-- ===== src/Tests/Taps.antt =====
-- Runs of the settlement of challenges.
use miriam.Prelude.{◌≡◌, refl, ◌⊎◌, ◌≤◌, arith, pos, String, none, some, List, [], ◌∷◌, lookup}
use miriam.Decimal.{cents}
use miriam.Ledger.{Ledger, Challenge, pending, consumed, ok}
use miriam.State.{ProposedAction, ActionType}
use miriam.Store.Memory.{MemoryState, memory_store}
use miriam.Transfer.{World, TransferInstruction}
use miriam.Transfer.Once.{count}
use miriam.Settlement.{Orchestrator, Tap, settled, handle_confirm}
use miriam.Settlement.Challenges.{create_challenge, decline_challenge, expire_challenge}
use miriam.Settlement.Stored.{IsStored, confirm_sends_as-IsStored}
use miriam.Settlement.Closed.{Inert, SameFunds, closed_challenge-Inert}
use miriam.Settlement.Spent.{second_tap-Inert}
use miriam.Settlement.Taps.{Arrival, tap, decline, arrivals, arrivals_once}
use miriam.Settlement.Unexecuted.{staged_move-IsUnexecuted}
use miriam.Tests.Data.{env, later, utc, policy, ledger, rail, no_faults, twenty, approved, world}

abbrev pub hands : Orchestrator
hands = record { env = env; faults = no_faults; zone = utc; policy = policy; rail = rail }

-- a challenge for 20.00 to bob
abbrev pub challenge : Challenge
challenge = record {
  id = "confirm_1";
  user_id = "ada";
  action = "transfer";
  amount = twenty;
  counterparty = "bob";
  destination = "bob";
  sleeve = "spendable";
  decision_id = "dec_1";
  reasons = [];
  created_at = 863000;
  expires_at = 864800;
  status = pending;
  meta = [];
}

abbrev challenged : Ledger
challenged = record ledger { challenges = ("confirm_1", challenge) ∷ [] }

abbrev challenged_world : World MemoryState
challenged_world = record world { ledger = challenged; store = ("ada", challenged) ∷ [] }

abbrev pub the_tap : Tap
the_tap = record { user_id = "ada"; confirm_id = "confirm_1" }

confirm_sends_as-IsStored_example :
    let w' = (handle_confirm memory_store hands the_tap challenged_world).1 in
    (w'.calls ≡ [])
    ⊎ ((c : Challenge) × (lookup "confirm_1" challenged.challenges ≡ some c)
        × (i : TransferInstruction) × (w'.calls ≡ i ∷ [])
        × IsStored 864000 challenged c i)
confirm_sends_as-IsStored_example =
    confirm_sends_as-IsStored memory_store hands the_tap challenged_world

second_tap-Inert_example :
    let w' = (handle_confirm memory_store hands the_tap challenged_world).1 in
    (w'.store ≡ challenged_world.store)
    ⊎ ((l : Ledger) × (memory_store.load "ada" w'.store ≡ ok (some l))
        × Inert
            (record w' { ledger = l })
            (handle_confirm memory_store
              (record hands { env = later })
              the_tap
              (record w' { ledger = l })).1)
unfolding lookup miriam.Ledger.is_open miriam.Settlement.leg_of miriam.Settlement.action_type
second_tap-Inert_example =
    second_tap-Inert memory_store hands (record hands { env = later }) the_tap the_tap challenge
      challenged_world (refl, refl, refl, refl, (ActionType.transfer, refl)) refl

-- the tap of an id that was never issued
abbrev unknown_tap : Tap
unknown_tap = record { user_id = "ada"; confirm_id = "confirm_9" }

closed_challenge-Inert_example :
    Inert challenged_world (handle_confirm memory_store hands unknown_tap challenged_world).1
    × SameFunds challenged
        (decline_challenge memory_store 864000 "confirm_9" challenged challenged_world.store).ledger
    × (expire_challenge memory_store 864000 "confirm_9" challenged challenged_world.store
        ≡ record { result = ok none; ledger = challenged; store = challenged_world.store })
unfolding lookup
closed_challenge-Inert_example =
    closed_challenge-Inert memory_store hands unknown_tap challenged_world
      (λ c e. absurd (ground (arith, e)))

abbrev key : String
key = "dec_1:transfer:bob:20.00:spendable"

-- Two taps, a decline and a third tap.
abbrev events : List Arrival
events =
    tap hands the_tap
    ∷ tap hands the_tap
    ∷ decline 864100 "ada" "confirm_1"
    ∷ tap hands the_tap
    ∷ []

arrivals_once_example : count key (arrivals memory_store events challenged_world).calls ≤ 1
arrivals_once_example = arrivals_once memory_store key events challenged_world refl

-- 200.00 into the savings, above the ceiling for acting without asking
abbrev stash : ProposedAction
stash = record {
  type = ActionType.internal_move;
  amount = some (cents (pos 20000));
  counterparty = "";
  sleeve = "savings";
  side = "";
  category = "";
  rule = none;
}

abbrev stash_tap : Tap
stash_tap = record { user_id = "ada"; confirm_id = "confirm_dec_1" }

staged_move-IsUnexecuted_example :
    let c = create_challenge memory_store 863000 approved stash ledger world.store in
    let w = record world { ledger = c.ledger; store = c.store } in
    let (r, w') = handle_confirm memory_store hands stash_tap w in
    (r ≡ ok (settled none "confirm_dec_1" []))
    × (w'.store ≡ w.store)
    × (w'.calls ≡ w.calls)
    × (w'.journal ≡ w.journal)
    × (w'.ledger.sleeves ≡ w.ledger.sleeves)
unfolding miriam.Decimal.money create_challenge miriam.TransferReceipts.save_then
    miriam.Store.Memory.save lookup
staged_move-IsUnexecuted_example =
    staged_move-IsUnexecuted memory_store 863000 approved stash ledger hands stash_tap world
      "confirm_dec_1" refl (omega arith) refl (omega arith) refl refl
