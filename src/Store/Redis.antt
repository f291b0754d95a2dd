-- ===== src/Store/Redis.antt =====
-- `RedisLedgerStore` of miriam_agent/hands/ledger.py. The stored texts are the ledgers themselves, or
-- `corrupt` for one that does not decode; whether Redis answers is part of the state. The process-local
-- fallback is the in-memory store.
use miriam.Prelude.{
  ℕ, ◌<◌, ◌≡◌, ◌≢◌, String, Bool, true, false, Option, none, some, Dict, [], lookup, insert,
  lookup-insert, lookup-insert_self, lookup-nil, ◌==◌, if◌then◌else◌, arith, eq_iff,
}
use miriam.Ledger.{Ledger, Result, ok, err, Error, conflict, unavailable, value_error, touch}
use miriam.Store.{LedgerStore}
use miriam.Store.Memory
use miriam.Store.Memory.{MemoryState}

pub data Raw : Type 0 where
  stored : Ledger → Raw
  corrupt : Raw

pub record RedisState : Type 0 where
  pub raws : Dict Raw
  pub is_up : Bool
  pub single_process : Bool
  pub fallback : MemoryState

-- what the script `_CAS` returns: -1, -2, or the stored version
pub data CasReply : Type 0 where
  landed unreadable : CasReply
  moved_on : ℕ → CasReply

-- `_CAS`: the stored version, with 0 for a missing key
pub stored_version : Option Raw → Option ℕ
stored_version none = some 0
stored_version (some (stored l)) = some l.version
stored_version (some corrupt) = none

pub cas : Ledger → Dict Raw → CasReply × Dict Raw
unfolding stored_version touch
cas l raws = elim (stored_version (lookup l.user_id raws)) [
  | none ↦ (unreadable, raws)
  | some v ↦
      if v == l.version
      then (landed, insert l.user_id (stored (touch l)) raws)
      else (moved_on v, raws)
]

-- the branches on the reply of the script
abbrev answer : CasReply → Ledger → Result Ledger
answer landed l = ok (touch l)
answer unreadable l = err unavailable
answer (moved_on v) l = err conflict

-- the fallback's answer, with the rest of the state as it was
abbrev in_fallback : RedisState → Result Ledger × MemoryState → Result Ledger × RedisState
in_fallback s r = (r.0, record s { fallback = r.1 })

-- `RedisLedgerStore.save`
unfoldable pub save : Ledger → RedisState → Result Ledger × RedisState
unfolding cas Memory.save
save l s =
    if s.is_up
    then (let c = cas l s.raws in (answer c.0 l, record s { raws = c.1 }))
    else (if s.single_process
        then in_fallback s (Memory.save l s.fallback)
        else (err unavailable, s))

-- the text that Redis returned, or the fallback where it has none
abbrev decode : Option Raw → String → RedisState → Result (Option Ledger)
decode none user s = Memory.load user s.fallback
decode (some (stored l)) user s = ok (some l)
decode (some corrupt) user s = err value_error

-- `RedisLedgerStore.load`
unfoldable pub load : String → RedisState → Result (Option Ledger)
unfolding Memory.load
load user s =
    if s.is_up
    then decode (lookup user s.raws) user s
    else (if s.single_process then Memory.load user s.fallback else err unavailable)

-- With Redis down and more than one process allowed, nothing is read and nothing is written.
pub down-IsRefused :
    (l : Ledger) (user : String) (s : RedisState)
    → s.is_up ≡ false
    → s.single_process ≡ false
    → (save l s ≡ (err unavailable, s)) × (load user s ≡ err unavailable)
unfolding save load
down-IsRefused l user s d m = (ground arith, ground arith)

-- With a single process, a ledger saved while Redis is down, over one that Redis holds and with
-- none in the fallback, is not what is loaded when Redis answers again: the save reports success,
-- and the load gives the older ledger.
degraded_save-IsLost :
    (l old : Ledger) (s : RedisState)
    → s.is_up ≡ false
    → s.single_process ≡ true
    → lookup l.user_id s.raws ≡ some (stored old)
    → lookup l.user_id s.fallback ≡ none
    → let (r, s') = save l s in
      (r ≡ ok (touch l)) × (load l.user_id (record s' { is_up = true }) ≡ ok (some old))
unfolding save load
degraded_save-IsLost l old s d m held new = (ground arith, ground arith)

-- A ledger of a version above 0 that lives only in the fallback cannot be saved while Redis
-- answers: the load gives it, and its save raises a conflict and changes nothing.
fallback_ledger-conflict :
    (l : Ledger) (s : RedisState)
    → s.is_up ≡ true
    → lookup l.user_id s.raws ≡ none
    → lookup l.user_id s.fallback ≡ some l
    → 0 < l.version
    → (load l.user_id s ≡ ok (some l)) × (save l s ≡ (err conflict, s))
unfolding save load
fallback_ledger-conflict l s u none_held held v = (ground arith, ground arith)

-- The store of a deployment with several processes, which has no fallback.
pub record SharedState : Type 0 where
  pub raws : Dict Raw
  pub is_up : Bool

abbrev pub shared : SharedState → RedisState
shared s = record { raws = s.raws; is_up = s.is_up; single_process = false; fallback = [] }

unfoldable pub shared_save : Ledger → SharedState → Result Ledger × SharedState
unfolding save
shared_save l s = let r = save l (shared s) in (r.0, record { raws = r.1.raws; is_up = r.1.is_up })

unfoldable pub shared_load : String → SharedState → Result (Option Ledger)
unfolding load
shared_load user s = load user (shared s)

pub save-ok_lem :
    (l : Ledger) (s : SharedState) {l' : Ledger} → (shared_save l s).0 ≡ ok l' → l' ≡ touch l
unfolding shared_save
save-ok_lem l s h = ground arith

pub save-err_lem :
    (l : Ledger) (s : SharedState) {e : Error}
    → (shared_save l s).0 ≡ err e
    → (shared_save l s).1 ≡ s
unfolding shared_save
save-err_lem l s h = ground arith

pub load-save_lem :
    (l : Ledger) (s : SharedState) {l' : Ledger}
    → (shared_save l s).0 ≡ ok l'
    → shared_load l.user_id (shared_save l s).1 ≡ ok (some l')
unfolding shared_save shared_load
load-save_lem l s h = ground (arith, lookup-insert_self l.user_id (stored (touch l)) s.raws)

pub load-save_ne_lem :
    (l : Ledger) (s : SharedState) (user : String)
    → user ≢ l.user_id
    → shared_load user (shared_save l s).1 ≡ shared_load user s
unfolding shared_save shared_load
load-save_ne_lem l s user h =
    ground (arith, lookup-insert l.user_id user (stored (touch l)) s.raws, eq_iff l.user_id user)

pub save_version_lem :
    (l : Ledger) (s : SharedState) {l' l₀ : Ledger}
    → (shared_save l s).0 ≡ ok l'
    → shared_load l.user_id s ≡ ok (some l₀)
    → l₀.version ≡ l.version
unfolding shared_save shared_load
save_version_lem l s h e = ground (arith, lookup-nil {V = Ledger} l.user_id)

-- Redis shared by several processes keeps the contract of every ledger store.
abbrev pub shared_store : LedgerStore SharedState
shared_store = record {
  load = shared_load;
  save = shared_save;
  save-ok = save-ok_lem;
  save-err = save-err_lem;
  load-save = load-save_lem;
  load-save_ne = load-save_ne_lem;
  save_version = save_version_lem;
}
