-- ===== src/Journal/Sql.antt =====
-- `PostgresExecutionJournal` of miriam_agent/hands/execution_journal.py, over the table
-- `MoneyExecution` of miriam_agent/database/models.py. The database is a parameter, `Database`: the
-- three statements that the class runs, with what SQL documents of them. The details, which no
-- reply shows, and the two timestamps of a row are left out.
pub mod Table
pub mod Agreement
use miriam.Prelude.{
  ℕ, ◌≡◌, String, Bool, true, false, Option, none, some, ◌==◌, ◌&&◌, not, get_or, str_eq,
  if◌then◌else◌,
}
use miriam.Journal.{JournalClaim, Status, reserved, dispatched, confirmed, failed, is_terminal}

-- `MoneyExecution`
pub record MoneyExecution : Type 0 where
  pub idempotency_key : String
  pub user_id : String
  pub action : String
  pub amount : String
  pub currency : String
  pub counterparty : String
  pub sleeve : String
  pub decision_id : String
  pub status : Status
  pub rail_reference : Option String

-- the row after a selective update
abbrev pub update_row :
    (MoneyExecution → Bool) → (MoneyExecution → MoneyExecution) → MoneyExecution → MoneyExecution
update_row where_ values r = if where_ r then values r else r

abbrev pub map_row :
    (MoneyExecution → MoneyExecution) → Option MoneyExecution → Option MoneyExecution
map_row f none = none
map_row f (some r) = some (f r)

-- The statements: a select by the primary key, `INSERT ... ON CONFLICT DO NOTHING` with the count of
-- the rows that it inserts, and `UPDATE ... WHERE` of values other than the key.
pub record Database (T : Type 0) : Type 0 where
  pub select : String → T → Option MoneyExecution
  pub insert_or_ignore : MoneyExecution → T → ℕ × T
  pub update : (MoneyExecution → Bool) → (MoneyExecution → MoneyExecution) → T → T
  pub select-key :
      (k : String) (t : T) {r : MoneyExecution} → select k t ≡ some r → r.idempotency_key ≡ k
  pub insert_new :
      (r : MoneyExecution) (t : T)
      → select r.idempotency_key t ≡ none
      → ((insert_or_ignore r t).0 ≡ 1)
        × ((k : String)
            → select k (insert_or_ignore r t).1
              ≡ (if str_eq r.idempotency_key k then some r else select k t))
  pub insert_conflict :
      (r : MoneyExecution) (t : T) {held : MoneyExecution}
      → select r.idempotency_key t ≡ some held
      → ((insert_or_ignore r t).0 ≡ 0)
        × ((k : String) → select k (insert_or_ignore r t).1 ≡ select k t)
  pub select-update :
      (where_ : MoneyExecution → Bool) (values : MoneyExecution → MoneyExecution) (k : String)
      (t : T)
      → ((r : MoneyExecution) → (values r).idempotency_key ≡ r.idempotency_key)
      → select k (update where_ values t) ≡ map_row (update_row where_ values) (select k t)

-- the fields of a call of `reserve`
pub record Claim : Type 0 where
  pub key : String
  pub user_id : String
  pub action : String
  pub amount : String
  pub currency : String
  pub counterparty : String
  pub sleeve : String
  pub decision_id : String

-- the values of the insert
unfoldable pub claim_row : Claim → MoneyExecution
claim_row c = record {
  idempotency_key = c.key;
  user_id = c.user_id;
  action = c.action;
  amount = c.amount;
  currency = c.currency;
  counterparty = c.counterparty;
  sleeve = c.sleeve;
  decision_id = c.decision_id;
  status = reserved;
  rail_reference = none;
}

-- the condition of `_transition`, and its values: a reference only where one is given
unfoldable pub may_move : String → MoneyExecution → Bool
may_move key r = str_eq r.idempotency_key key && not (is_terminal r.status)

unfoldable pub move_row : Status → String → MoneyExecution → MoneyExecution
move_row to ref r = record r {
  status = to;
  rail_reference = if str_eq ref "" then r.rail_reference else some ref;
}

-- `row.rail_reference or ""`
unfoldable pub observed_row : MoneyExecution → JournalClaim
observed_row r = record {
  won = false;
  status = r.status;
  rail_reference = get_or r.rail_reference "";
}

module _ {T : Type 0} (db : Database T) where
  -- `status_of`
  unfoldable pub status_of : String → T → Option JournalClaim
  unfolding observed_row
  status_of key t = elim (db.select key t) [ none ↦ none | some r ↦ some (observed_row r) ]

  -- `reserve`: the insert decides, and a loser reads the row again. Nothing is the error of a row
  -- that is lost.
  unfoldable pub reserve : Claim → T → Option JournalClaim × T
  unfolding claim_row status_of
  reserve c t =
      let (rowcount, t') = db.insert_or_ignore (claim_row c) t in
      if rowcount == 1
      then (some (record { won = true; status = reserved; rail_reference = "" }), t')
      else (status_of c.key t', t')

  -- `_transition`
  unfoldable pub transition : Status → String → String → T → T
  unfolding may_move move_row
  transition to ref key t = db.update (may_move key) (move_row to ref) t

  abbrev pub mark_dispatched : String → String → T → T
  mark_dispatched = transition dispatched

  abbrev pub mark_confirmed : String → String → T → T
  mark_confirmed = transition confirmed

  abbrev pub mark_failed : String → T → T
  mark_failed = transition failed ""
