-- ===== src/Lib.antt =====
-- MIRIAM, a money agent: the ledger of a user, the operations that move the user's money (the package
-- miriam_agent/hands), the decision of what may be done (miriam_agent/judgment), and the turns of
-- miriam_agent/orchestrator.py that connect them. A turn loads the ledger and builds a STATE from it.
-- For an utterance Judgment decides: Hands acts, or a challenge is staged that a tap settles later, or
-- a refusal is recorded. An operation of Hands checks again what was decided and what the limits allow,
-- calls a payment rail where money leaves, writes the balances, a movement and a receipt on the
-- ledger, and saves the ledger in a store that several workers share. An inflow is claimed by its
-- structured identity and split over the sleeves.
--
-- The parts, and the code that each file is about:
-- - Prelude: native numbers, integers, lists, dicts (`dict` of Python, in order of insertion).
-- - Decimal: `Decimal` and `money` (hands/ledger.py), which rounds to whole cents. Balances, movements
--   and the amounts that the limits see are integers of cents.
-- - Audit: `Receipt`, `AuditRow` (hands/audit.py).
-- - Ledger: `Ledger` and its methods (hands/ledger.py). A method that may raise gives its result
--   beside the ledger. Ledger/Balances, Receipts, Window and Frames: what they do.
-- - Store: `LedgerStore` (hands/ledger.py) as an interface with its contract; Store/Memory and
--   Store/Redis are `InMemoryLedgerStore` and `RedisLedgerStore`, and both fill it, the latter where
--   it has no fallback. Store/Race: racing writers, for every store.
-- - Limits: `Policy`, `evaluate_limits`, `classify_limits` and the usage (hands/limits.py).
-- - Journal: `InMemoryExecutionJournal` (hands/execution_journal.py), and `_safe_mark`. Journal/Sql is
--   `PostgresExecutionJournal` over a `Database`, which Journal/Sql/Table fills with a list of rows;
--   Journal/Sql/Agreement sets the two journals side by side.
-- - Reconcile: `reconcile` (hands/reconcile.py), with Reconcile/Drift.
-- - Judgment: Judgment/Answers is judgment/answers.py and the thresholds of judgment/schema.py,
--   Judgment/Rules is judgment/rules.py, Judgment/Decide is judgment/decide.py, with what they decide
--   in Judgment/Decide/Acting, Agreement and Offers.
-- - State: `build_state`, `require_complete` (hands/state.py), and the `Decision` of
--   judgment/schema.py.
-- - TransferReceipts: `_rejected`, `_audit`, `_decision_verdict` (hands/transfer_receipts.py).
-- - Split: `split_inflow` (hands/split.py), with Split/Amounts, Frames, Gains and Inflow.
-- - Transfer: `execute_transfer` (hands/transfer.py) in stages, one for each early return:
--   `claim_key`, `check_state`, `check_decision`, `check_limits`, `send`, `settle`, `roll_back`.
--   Transfer/Claims has what a call is given; Transfer/Stages, Once, Money and Retry prove.
-- - Moves: `handle_debit`, `move_between_sleeves`, `route_yield`, `record_refusal`
--   (hands/transfer.py), with Moves/Guards, Debits, Redelivered, Frames, Reversals,
--   Unlocks and Yields.
-- - Payments: the identity of an inbound payment and the two stores of claimed ones
--   (hands/payment_refs.py). Inflows: `_handle_inflow` and `_duplicate_inflow` (orchestrator.py), with
--   Inflows/Repeats.
-- - Settlement: `_handle_confirm` (hands/settlement.py) and `_execute` (orchestrator.py).
--   Settlement/Challenges: a challenge is staged, declined, expired and reopened (orchestrator.py,
--   hands/settlement.py). Settlement/Utterances: `_handle_utterance` (orchestrator.py) from a parsed
--   action. Settlement/Stored, Closed, Spent, Taps, Unexecuted and Utterances/Authorised
--   prove.
-- - Host: what Hands asks the Go host, and what it may answer; Host/Frames has what such a call leaves
--   alone. FundingCalls: the writes of hands/funding.py. Funding: the onramp, its code and the cash-out
--   (hands/funding_settle.py).
--   Rebalance: the calls on a strategy (hands/rebalance.py). Bills: `_handle_confirm_bill`
--   (hands/settle_funding.py). Catalogue: what the host lists. Replays: `_obtain_and_replay`
--   (hands/invest_funding.py). Orders: `prepare_order` (hands/orders.py), in stages, one for each early
--   return. SaveRules: the pick and the update of a save rule (hands/save_rule.py,
--   hands/settle_legs.py).
-- - Legs: the legs that a tap is handed to (hands/settle_legs.py, hands/settle_funding.py), and
--   `handle_tap`, the whole of `_handle_confirm`. Legs/Gate, Funds, Stored, Onramps, Rules, Repeats,
--   Reopened, Reordered and Retries prove, as do Funding/Codes, Orders, Lost and Retaps,
--   Rebalance/Once, Bills/Paid, Orders/Asked and Executed.
-- - Tests: runs at concrete inputs.
--
-- The clients of a store take a `LedgerStore` as a section parameter, so what is shown of them
-- holds for every store that keeps the contract. A call gives its result, the ledger after it, and
-- the store; `World` adds the journal and the calls that reached the rail. No loop needs fuel: each
-- is recursion on a list.
--
-- Parameters, for what is not in the repository: the answers of the rails (`Rail`), a time zone
-- (`Zone`), fresh ids, the clock and the print of an amount or a date (`Env`), an outage of the
-- journal and marks that are lost (`Faults`), whether Redis answers, the answers of the judge, the
-- statements of the databases (`Database`, `ReferenceTable`), case folding and SHA-256
-- (`Identity`), the answers of the Go host to a request after all that it was asked before
-- (`Host`), and the methods of `str` with the patterns of a code and of an asset id (`Words`).
-- Redis is a dict. A reply of the host is a dict of values that are nested one level deep.
--
-- Not modelled: the prose `detail` and the `strategy_id` of a receipt; bills, the pending invest
-- flow and the pending order of a ledger; the live card of a challenge; the 28 digits of Python's
-- decimal context; the order in which leaks are printed; a rail that raises; the two rails of
-- hands/transfer.py; the float `affordability` and the confidences of a decision; that the
-- confidences of the judge and their thresholds are floats (here they are exact decimals); the
-- ledger object that a rolled-back transfer was passed, which stays debited and is not used again
-- (here only the ledger of the outcome is kept). One call of Hands draws one receipt id. The
-- parsers of utterances, the gates of a chat turn, the settlement of an investment and of the shift
-- of an allocation (a tap on one ends where its leg is entered), the facts that narration may use,
-- money commands and the interfaces are not modelled. An amount goes to the host as a decimal,
-- where the code sends a float.
pub mod Prelude
pub mod Reconcile
pub mod Decimal
pub mod Audit
pub mod Ledger
pub mod Store
pub mod Host
pub mod FundingCalls
pub mod Funding
pub mod Rebalance
pub mod Bills
pub mod Catalogue
pub mod Replays
pub mod Orders
pub mod SaveRules
pub mod Legs
pub mod Limits
pub mod Inflows
pub mod Journal
pub mod State
pub mod TransferReceipts
pub mod Settlement
pub mod Split
pub mod Transfer
pub mod Moves
pub mod Payments
pub mod Judgment
pub mod Tests
