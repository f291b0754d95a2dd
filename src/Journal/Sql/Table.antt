-- ===== src/Journal/Sql/Table.antt =====
-- A table of the rows of `MoneyExecution` (miriam_agent/database/models.py) as a list: a database for
-- the runs of miriam_agent/hands/execution_journal.py.
use miriam.Prelude.{
  ℕ, ◌≡◌, refl, String, Bool, Option, none, some, List, [], ◌∷◌, str_eq, eq_iff, arith,
  if◌then◌else◌,
}
use miriam.Journal.Sql.{MoneyExecution, Database, update_row, map_row}

abbrev pub Table : Type 0
Table = List MoneyExecution

unfoldable pub select : String → Table → Option MoneyExecution
select k [] = none
select k (r ∷ t) = if str_eq r.idempotency_key k then some r else select k t

unfoldable pub insert_or_ignore : MoneyExecution → Table → ℕ × Table
unfolding select
insert_or_ignore r t = elim (select r.idempotency_key t) [ none ↦ (1, r ∷ t) | some held ↦ (0, t) ]

unfoldable pub update : (MoneyExecution → Bool) → (MoneyExecution → MoneyExecution) → Table → Table
update where_ values [] = []
update where_ values (r ∷ t) = update_row where_ values r ∷ update where_ values t

pub select-key_lem :
    (k : String) (t : Table) {r : MoneyExecution} → select k t ≡ some r → r.idempotency_key ≡ k
unfolding select
select-key_lem k [] h = absurd (ground arith)
select-key_lem k (x ∷ t) {r = r} h =
    ground (arith, eq_iff x.idempotency_key k, select-key_lem k t {r = r})

pub select-update_lem :
    (where_ : MoneyExecution → Bool) (values : MoneyExecution → MoneyExecution) (k : String)
    (t : Table)
    → ((r : MoneyExecution) → (values r).idempotency_key ≡ r.idempotency_key)
    → select k (update where_ values t) ≡ map_row (update_row where_ values) (select k t)
unfolding select update
select-update_lem where_ values k [] h = refl
select-update_lem where_ values k (r ∷ t) h =
    ground (arith, h r, select-update_lem where_ values k t h)

pub insert_new_lem :
    (r : MoneyExecution) (t : Table)
    → select r.idempotency_key t ≡ none
    → ((insert_or_ignore r t).0 ≡ 1)
      × ((k : String)
          → select k (insert_or_ignore r t).1
            ≡ (if str_eq r.idempotency_key k then some r else select k t))
unfolding select insert_or_ignore
insert_new_lem r t h = (ground arith, λ k. ground arith)

pub insert_conflict_lem :
    (r : MoneyExecution) (t : Table) {held : MoneyExecution}
    → select r.idempotency_key t ≡ some held
    → ((insert_or_ignore r t).0 ≡ 0)
      × ((k : String) → select k (insert_or_ignore r t).1 ≡ select k t)
unfolding select insert_or_ignore
insert_conflict_lem r t h = (ground arith, λ k. ground arith)

abbrev pub table : Database Table
table = record {
  select = select;
  insert_or_ignore = insert_or_ignore;
  update = update;
  select-key = select-key_lem;
  insert_new = insert_new_lem;
  insert_conflict = insert_conflict_lem;
  select-update = select-update_lem;
}
