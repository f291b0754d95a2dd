-- ===== src/Journal/Sql/Agreement.antt =====
-- The two journals of miriam_agent/hands/execution_journal.py, side by side, over every list of
-- requests.
use miriam.Prelude.{
  ◌≡◌, refl, ap, String, Option, none, some, inl, inr, List, [], ◌∷◌, Option-cases, lookup,
  lookup-insert, eq_iff, arith,
}
use miriam.Journal
use miriam.Journal.{
  Journal, JournalClaim, Row, fresh_row, moved, is_terminal, Status, dispatched, confirmed, failed,
}
use miriam.Journal.Sql
use miriam.Journal.Sql.{
  Database, MoneyExecution, Claim, claim_row, may_move, move_row, observed_row, update_row,
}

-- A call of the interface `ExecutionJournal`.
pub data Request : Type 0 where
  claim : Claim → Request
  mark_dispatched mark_confirmed : String → String → Request
  mark_failed : String → Request
  query : String → Request

-- what it returns: a claim, a status, nothing, or the error of a lost row
pub data Reply : Type 0 where
  claimed : JournalClaim → Reply
  status : Option JournalClaim → Reply
  done lost : Reply

-- `InMemoryExecutionJournal`
pub ask_memory : Request → Journal → Reply × Journal
ask_memory (claim c) j = let (r, j') = Journal.reserve c.key c.user_id j in (claimed r, j')
ask_memory (mark_dispatched key ref) j = (done, Journal.mark_dispatched ref key j)
ask_memory (mark_confirmed key ref) j = (done, Journal.mark_confirmed ref key j)
ask_memory (mark_failed key) j = (done, Journal.mark_failed key j)
ask_memory (query key) j = (status (Journal.status_of key j), j)

abbrev claim_reply : Option JournalClaim → Reply
claim_reply none = lost
claim_reply (some c) = claimed c

module _ {T : Type 0} (db : Database T) where
  -- `PostgresExecutionJournal`
  pub ask_sql : Request → T → Reply × T
  ask_sql (claim c) t = let (r, t') = Sql.reserve db c t in (claim_reply r, t')
  ask_sql (mark_dispatched key ref) t = (done, Sql.mark_dispatched db ref key t)
  ask_sql (mark_confirmed key ref) t = (done, Sql.mark_confirmed db ref key t)
  ask_sql (mark_failed key) t = (done, Sql.mark_failed db key t)
  ask_sql (query key) t = (status (Sql.status_of db key t), t)

  pub sql_replies : List Request → T → List Reply
  sql_replies [] t = []
  sql_replies (q ∷ qs) t = let (r, t') = ask_sql q t in r ∷ sql_replies qs t'

  -- The journals show the same status and reference for every key.
  abbrev pub ShowsSame : Journal → T → Type 0
  ShowsSame j t = (k : String) → Sql.status_of db k t ≡ Journal.status_of k j

pub memory_replies : List Request → Journal → List Reply
memory_replies [] j = []
memory_replies (q ∷ qs) j = let (r, j') = ask_memory q j in r ∷ memory_replies qs j'

module _ {T : Type 0} (db : Database T) where
  reserve_new :
      (c : Claim) (j : Journal) (t : T)
      → ShowsSame db j t
      → db.select c.key t ≡ none
      → ((Sql.reserve db c t).0 ≡ some (Journal.reserve c.key c.user_id j).0)
        × ShowsSame db (Journal.reserve c.key c.user_id j).1 (Sql.reserve db c t).1
  unfolding Journal.reserve Sql.reserve claim_row Journal.status_of Sql.status_of observed_row
  reserve_new c j t h e =
      let (count, selects) = db.insert_new (claim_row c) t e in
      (
        ground (arith, h c.key, e, count),
        λ k. ground (
          arith,
          h c.key,
          h k,
          e,
          count,
          selects k,
          lookup-insert c.key k (fresh_row c.user_id) j,
          eq_iff c.key k,
        ),
      )

  reserve_held :
      (c : Claim) (j : Journal) (t : T) (held : MoneyExecution)
      → ShowsSame db j t
      → db.select c.key t ≡ some held
      → ((Sql.reserve db c t).0 ≡ some (Journal.reserve c.key c.user_id j).0)
        × ShowsSame db (Journal.reserve c.key c.user_id j).1 (Sql.reserve db c t).1
  unfolding Journal.reserve Sql.reserve claim_row Journal.status_of Sql.status_of observed_row
  reserve_held c j t held h e =
      let (count, selects) = db.insert_conflict (claim_row c) t e in
      (
        ground (arith, h c.key, e, count, selects c.key),
        λ k. ground (arith, h c.key, h k, e, count, selects k),
      )

  transition-ShowsSame :
      (to : Status) (ref key : String) (j : Journal) (t : T)
      → ShowsSame db j t
      → ShowsSame db (Journal.transition to ref key j) (Sql.transition db to ref key t)
  unfolding Journal.transition Sql.transition Journal.status_of Sql.status_of observed_row may_move
      move_row is_terminal
  transition-ShowsSame to ref key j t h k =
      let selects = db.select-update (may_move key) (move_row to ref) k t (λ r. refl) in
      elim (Option-cases (db.select k t)) [
        | inl e ↦ elim (Option-cases (lookup key j)) [
          | inl none_held ↦ ground (arith, h k, selects, e)
          | inr (row, held) ↦
              ground
                (arith, h k, selects, e, lookup-insert key k (moved to ref row) j, eq_iff key k)
        ]
        | inr (r, e) ↦ elim (Option-cases (lookup key j)) [
          | inl none_held ↦
              ground (arith, h k, selects, e, db.select-key k t e, eq_iff r.idempotency_key key)
          | inr (row, held) ↦ ground (
            arith,
            h k,
            selects,
            e,
            db.select-key k t e,
            lookup-insert key k (moved to ref row) j,
            eq_iff key k,
            eq_iff r.idempotency_key key,
            eq_iff ref "",
          )
        ]
      ]

  reserve-ShowsSame :
      (c : Claim) (j : Journal) (t : T)
      → ShowsSame db j t
      → ((Sql.reserve db c t).0 ≡ some (Journal.reserve c.key c.user_id j).0)
        × ShowsSame db (Journal.reserve c.key c.user_id j).1 (Sql.reserve db c t).1
  reserve-ShowsSame c j t h = elim (Option-cases (db.select c.key t)) [
    | inl e ↦ reserve_new c j t h e
    | inr (held, e) ↦ reserve_held c j t held h e
  ]

  ask-ShowsSame :
      (q : Request) (j : Journal) (t : T)
      → ShowsSame db j t
      → ((ask_sql db q t).0 ≡ (ask_memory q j).0)
        × ShowsSame db (ask_memory q j).1 (ask_sql db q t).1
  unfolding ask_sql ask_memory
  ask-ShowsSame (claim c) j t h =
      let (same, after) = reserve-ShowsSame c j t h in (ap claim_reply same, after)
  ask-ShowsSame (mark_dispatched key ref) j t h =
      (refl, transition-ShowsSame dispatched ref key j t h)
  ask-ShowsSame (mark_confirmed key ref) j t h =
      (refl, transition-ShowsSame confirmed ref key j t h)
  ask-ShowsSame (mark_failed key) j t h = (refl, transition-ShowsSame failed "" key j t h)
  ask-ShowsSame (query key) j t h = (ap status (h key), h)

  -- The two journals cannot be told apart by their replies. From contents that show the same status
  -- and reference for every key, any list of claims, marks and status queries is answered alike by
  -- the process-local journal and by the one in the database, and so no claim ends in the error of a
  -- lost row.
  pub sql_replies-memory_replies :
      (qs : List Request) (j : Journal) (t : T)
      → ShowsSame db j t
      → sql_replies db qs t ≡ memory_replies qs j
  unfolding sql_replies memory_replies
  sql_replies-memory_replies [] j t h = refl
  sql_replies-memory_replies (q ∷ qs) j t h =
      let (same, after) = ask-ShowsSame q j t h in
      rw (same, sql_replies-memory_replies qs (ask_memory q j).1 (ask_sql db q t).1 after)
