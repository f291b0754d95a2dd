-- ===== src/Store.antt =====
-- `LedgerStore` of miriam_agent/hands/ledger.py as an interface: the two operations, and what every
-- caller relies on. The two stores of the source are below it.
pub mod Memory
pub mod Redis
pub mod Race
use miriam.Prelude.{◌≡◌, ◌≢◌, String, Option, some, Bool, true, ℕ}
use miriam.Ledger.{Ledger, Result, ok, Error, err, touch}

-- A store over states `S`. A save that succeeds gives the ledger with its version bumped, which is
-- what the caller's object holds afterwards; one that raises leaves the caller's object alone.
pub record LedgerStore (S : Type 0) : Type 0 where
  pub load : String → S → Result (Option Ledger)
  pub save : Ledger → S → Result Ledger × S
  pub save-ok : (l : Ledger) (s : S) {l' : Ledger} → (save l s).0 ≡ ok l' → l' ≡ touch l
  pub save-err : (l : Ledger) (s : S) {e : Error} → (save l s).0 ≡ err e → (save l s).1 ≡ s
  pub load-save :
      (l : Ledger) (s : S) {l' : Ledger}
      → (save l s).0 ≡ ok l'
      → load l.user_id (save l s).1 ≡ ok (some l')
  pub load-save_ne :
      (l : Ledger) (s : S) (user : String) → user ≢ l.user_id → load user (save l s).1 ≡ load user s
  pub save_version :
      (l : Ledger) (s : S) {l' l₀ : Ledger}
      → (save l s).0 ≡ ok l'
      → load l.user_id s ≡ ok (some l₀)
      → l₀.version ≡ l.version
