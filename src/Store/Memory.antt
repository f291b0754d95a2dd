-- ===== src/Store/Memory.antt =====
-- `InMemoryLedgerStore` of miriam_agent/hands/ledger.py, as a `LedgerStore`.
use miriam.Prelude.{
  ◌≡◌, ◌≢◌, String, Option, none, some, Dict, lookup, insert, lookup-insert, lookup-insert_self,
  ◌==◌, if◌then◌else◌, arith, eq_iff,
}
use miriam.Ledger.{Ledger, Result, ok, err, Error, conflict, touch}
use miriam.Store.{LedgerStore}

abbrev pub MemoryState : Type 0
MemoryState = Dict Ledger

-- `InMemoryLedgerStore.load`; a copy in the source, a value here
unfoldable pub load : String → MemoryState → Result (Option Ledger)
load user s = ok (lookup user s)

-- `InMemoryLedgerStore.save`
unfoldable pub save : Ledger → MemoryState → Result Ledger × MemoryState
unfolding touch
save l s = elim (lookup l.user_id s) [
  | none ↦ (ok (touch l), insert l.user_id (touch l) s)
  | some stored ↦
      if stored.version == l.version
      then (ok (touch l), insert l.user_id (touch l) s)
      else (err conflict, s)
]

pub save-ok_lem : (l : Ledger) (s : MemoryState) {l' : Ledger} → (save l s).0 ≡ ok l' → l' ≡ touch l
unfolding save
save-ok_lem l s h = ground arith

pub save-err_lem :
    (l : Ledger) (s : MemoryState) {e : Error} → (save l s).0 ≡ err e → (save l s).1 ≡ s
unfolding save
save-err_lem l s h = ground arith

pub load-save_lem :
    (l : Ledger) (s : MemoryState) {l' : Ledger}
    → (save l s).0 ≡ ok l'
    → load l.user_id (save l s).1 ≡ ok (some l')
unfolding save load
load-save_lem l s h = ground (arith, lookup-insert_self l.user_id (touch l) s)

pub load-save_ne_lem :
    (l : Ledger) (s : MemoryState) (user : String)
    → user ≢ l.user_id
    → load user (save l s).1 ≡ load user s
unfolding save load
load-save_ne_lem l s user h =
    ground (arith, lookup-insert l.user_id user (touch l) s, eq_iff l.user_id user)

pub save_version_lem :
    (l : Ledger) (s : MemoryState) {l' l₀ : Ledger}
    → (save l s).0 ≡ ok l'
    → load l.user_id s ≡ ok (some l₀)
    → l₀.version ≡ l.version
unfolding save load
save_version_lem l s h e = ground arith

-- The process-local store keeps the contract of every ledger store.
abbrev pub memory_store : LedgerStore MemoryState
memory_store = record {
  load = load;
  save = save;
  save-ok = save-ok_lem;
  save-err = save-err_lem;
  load-save = load-save_lem;
  load-save_ne = load-save_ne_lem;
  save_version = save_version_lem;
}
