-- ===== src/Transfer/Claims.antt =====
-- miriam_agent/hands/transfer.py: what a call of `execute_transfer` is given, its idempotency key, the
-- amount that the decision lets it send, and the claim of the key.
use miriam.Prelude.{String, ℤ, Bool, Option, none, some, List, [], ◌∷◌, if◌then◌else◌}
use Prim.Native.String.{◌++◌ as join}
use miriam.Decimal.{Decimal, money, cents, leb_dec}
use miriam.Audit.{Receipt, Reason, journal_unavailable, already_in_flight, duplicate_key}
use miriam.Ledger.{Ledger, Result, receipt_for}
use miriam.Limits.{Zone, Policy}
use miriam.State.{HandlerState, ProposedAction, ActionType, Decision, ActionChoice}
use miriam.Journal.{Journal, JournalClaim, Status, dispatched, confirmed, reserved, reserve}
use miriam.TransferReceipts.{Env, Outcome, replay, rejected_receipt}

pub record TransferInstruction : Type 0 where
  pub user_id : String
  pub amount : ℤ
  pub currency : String
  pub counterparty : String
  pub sleeve : String
  pub idempotency_key : String
  pub purpose : String
  pub confirm_id : String

pub record RailOutcome : Type 0 where
  pub ok : Bool
  pub reference : String

pub record Rail : Type 0 where
  pub execute : TransferInstruction → RailOutcome
  pub reverse : TransferInstruction → String → RailOutcome

-- what a call may meet: a journal that raises, and marks that are lost
pub record Faults : Type 0 where
  pub journal_down : Bool
  pub dispatch_mark_lost : Bool
  pub settle_mark_lost : Bool

-- the ledger that the call returns in its outcome, or that it leaves where it raises, the shared store
-- and journal, and the calls that reached the rail
pub record World (S : Type 0) : Type 0 where
  pub ledger : Ledger
  pub store : S
  pub journal : Journal
  pub calls : List TransferInstruction
  pub reversals : List String

-- how a call ends, and the world after it
abbrev pub Ended : Type 0 → Type 0
Ended S = Result Outcome × World S

abbrev pub type_text : ActionType → String
type_text ActionType.transfer = "transfer"
type_text ActionType.purchase = "purchase"
type_text ActionType.lock = "lock"
type_text ActionType.unlock = "unlock"
type_text ActionType.yield = "yield"
type_text ActionType.invest = "invest"
type_text ActionType.internal_move = "internal_move"
type_text ActionType.order = "order"
type_text ActionType.rebalance = "rebalance"
type_text ActionType.set_allocation = "set_allocation"
type_text ActionType.pause = "pause"
type_text ActionType.resume = "resume"
type_text ActionType.onramp = "onramp"
type_text ActionType.offramp = "offramp"
type_text ActionType.bill = "bill"
type_text ActionType.save_rule = "save_rule"
type_text ActionType.no_action = "none"

-- `ProposedAction.signature`, of an action with an amount
unfoldable pub signature : Env → ProposedAction → Decimal → String
signature env a amount =
    join (type_text a.type)
      (join ":" (join a.counterparty (join ":" (join (env.text amount) (join ":" a.sleeve)))))

-- and of any action, where an absent amount prints as None
abbrev signature_without : ProposedAction → String
signature_without a =
    join (type_text a.type) (join ":" (join a.counterparty (join ":None:" a.sleeve)))

unfoldable pub proposal_signature : Env → ProposedAction → String
unfolding signature
proposal_signature env a = elim a.amount [ none ↦ signature_without a | some d ↦ signature env a d ]

abbrev pub decision_id_of : Option Decision → String
decision_id_of none = ""
decision_id_of (some d) = d.id

-- the idempotency key of `execute_transfer`
unfoldable pub transfer_key : Env → Option Decision → ProposedAction → Decimal → String
transfer_key env d a amount = join (decision_id_of d) (join ":" (signature env a amount))

-- `min(amount, suggested)` rounded, for `allow_smaller` with a suggestion; `money` of the amount else
abbrev smaller : ActionChoice → Decimal → Option Decimal → ℤ
smaller ActionChoice.allow_smaller amount (some suggested) =
    money (if leb_dec (cents (money amount)) suggested then cents (money amount) else suggested)
smaller _ amount suggested = money amount

unfoldable pub amount_to_send : Option Decision → Decimal → ℤ
amount_to_send none amount = money amount
amount_to_send (some d) amount = smaller d.action_choice amount d.suggested_amount

-- a call of `execute_transfer`: its surroundings, the policy, the rail, and the action with its amount
pub record Request : Type 0 where
  pub env : Env
  pub faults : Faults
  pub zone : Zone
  pub policy : Policy
  pub rail : Rail
  pub state : HandlerState
  pub action : ProposedAction
  pub amount : Decimal

abbrev pub request_key : Request → String
request_key q = transfer_key q.env q.state.decision q.action q.amount

-- a refusal of this movement, of the amount as given
unfoldable pub refusal : Request → List Reason → Decimal → Ledger → Receipt
unfolding rejected_receipt
refusal q reasons amount l =
    rejected_receipt q.env l "transfer" reasons (some amount) q.action.counterparty
      (decision_id_of q.state.decision) (request_key q)

abbrev pub alone : Receipt → Outcome
alone r = record { receipt = r; audit = [] }

-- the refusal of a key that is claimed, by the status that the journal shows
abbrev refuse_claimed : Status → Reason
refuse_claimed dispatched = already_in_flight
refuse_claimed reserved = already_in_flight
refuse_claimed _ = duplicate_key

abbrev replay_or : Option Receipt → Option Receipt → Option Receipt
replay_or none other = other
replay_or (some r) other = some (replay r)

abbrev lost_claim : Request → Status → Option Receipt → Ledger → Receipt
lost_claim q confirmed (some r) l = replay r
lost_claim q status prior l = refusal q (refuse_claimed status ∷ []) q.amount l

abbrev after_claim : Request → JournalClaim → Option Receipt → Ledger → Option Receipt
after_claim q c prior l =
    if c.won then replay_or prior none else some (lost_claim q c.status prior l)

-- `_claim_key`: the receipt that ends the call with no rail call, or none for the winner
unfoldable pub claim_key : {S : Type 0} → Request → World S → Option Receipt × World S
unfolding refusal
claim_key q w =
    if q.faults.journal_down
    then (some (refusal q (journal_unavailable ∷ []) q.amount w.ledger), w)
    else (let (claim, j) = reserve (request_key q) w.ledger.user_id w.journal in
        (
          after_claim q claim (receipt_for (request_key q) q.env.at w.ledger) w.ledger,
          record w { journal = j },
        ))
