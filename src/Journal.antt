-- ===== src/Journal.antt =====
-- miriam_agent/hands/execution_journal.py: the journal of idempotency keys.
-- `InMemoryExecutionJournal` row by row; `PostgresExecutionJournal` makes the same transitions in
-- SQL (an insert that does nothing on a conflict, and updates of rows that are not terminal).
pub mod Once
pub mod Sql
use miriam.Prelude.{
  ℕ, suc, ◌+◌, String, Bool, true, false, Option, none, some, List, [], ◌∷◌, Dict, lookup, insert,
  str_eq, if◌then◌else◌,
}

pub data Status : Type 0 where
  reserved dispatched confirmed failed : Status

-- `_TERMINAL`
unfoldable pub is_terminal : Status → Bool
is_terminal confirmed = true
is_terminal failed = true
is_terminal _ = false

pub record Row : Type 0 where
  pub status : Status
  pub rail_reference : String
  pub user_id : String

abbrev pub Journal : Type 0
Journal = Dict Row

pub record JournalClaim : Type 0 where
  pub won : Bool
  pub status : Status
  pub rail_reference : String

abbrev observed : Row → JournalClaim
observed row = record { won = false; status = row.status; rail_reference = row.rail_reference }

abbrev pub fresh_row : String → Row
fresh_row user = record { status = reserved; rail_reference = ""; user_id = user }

-- `reserve`: the only creator of a row
unfoldable pub reserve : String → String → Journal → JournalClaim × Journal
reserve key user j = elim (lookup key j) [
  | some row ↦ (observed row, j)
  | none ↦
      (record { won = true; status = reserved; rail_reference = "" }, insert key (fresh_row user) j)
]

-- a new reference, where one is given
abbrev reference_or : String → String → String
reference_or new old = if str_eq new "" then old else new

abbrev pub moved : Status → String → Row → Row
moved to ref row = record row { status = to; rail_reference = reference_or ref row.rail_reference }

-- the conditional update of the three marks
unfoldable pub transition : Status → String → String → Journal → Journal
unfolding is_terminal
transition to ref key j = elim (lookup key j) [
  | none ↦ j
  | some row ↦ if is_terminal row.status then j else insert key (moved to ref row) j
]

-- `mark_dispatched`, `mark_confirmed`, `mark_failed`; the last takes no reference
abbrev pub mark_dispatched : String → String → Journal → Journal
mark_dispatched = transition dispatched

abbrev pub mark_confirmed : String → String → Journal → Journal
mark_confirmed = transition confirmed

abbrev pub mark_failed : String → Journal → Journal
mark_failed = transition failed ""

-- `status_of`
unfoldable pub status_of : String → Journal → Option JournalClaim
status_of key j = elim (lookup key j) [ none ↦ none | some row ↦ some (observed row) ]

-- `_safe_mark` of hands/transfer_receipts.py: a mark that fails is logged and dropped. A failure
-- mark drops the reference that it is given.
unfoldable pub safe_mark : Bool → Status → String → String → Journal → Journal
safe_mark lost to key ref j = if lost then j else elim to [
  | dispatched ↦ mark_dispatched ref key j
  | confirmed ↦ mark_confirmed ref key j
  | _ ↦ mark_failed key j
]
