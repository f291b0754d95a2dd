-- ===== src/Moves/Unlocks.antt =====
-- `move_between_sleeves` of miriam_agent/hands/transfer.py: what a move between two sleeves does to
-- the balances and to the rent reserve.
use mathlib.Core.Bool.{false≢true}
use miriam.Prelude.{
  ◌≡◌, ◌≢◌, refl, sym, ◌∙◌, ap, arith, int_laws, String, ℤ, pos, ◌-ℤ◌, ◌≤ℤ◌, ◌<ℤ◌, min_ℤ, true,
  false, inl, inr, none, Option-cases, List-cases, [], total, str_eq, eq_iff, lookup, get_or,
}
use miriam.Decimal.{Decimal, money, cents}
use miriam.Decimal.Rounding.{money-cents}
use miriam.Audit.{Receipt, Trigger}
use miriam.Ledger.{
  Ledger, Result, ok, balance, is_known, move_internal, record_movement, remember_receipt,
  receipt_for, RentFirst,
}
use miriam.Ledger.Balances.{
  net_worth, net_worth-move_internal, move_internal-ok, move_internal-MovedFunds,
}
use miriam.Limits.{Policy, is_locked}
use miriam.Store.{LedgerStore}
use miriam.TransferReceipts.{Env}
use miriam.TransferReceipts.Saving.{save_then-Saved}
use miriam.Moves.{move_reasons, release_rent, finish, move_now, move_key, move_between_sleeves}

module _ {S : Type 0} (store : LedgerStore S) where
  finish-sleeves :
      (env : Env) (r : Receipt) (d : String) (t : Trigger) (l : Ledger) (s : S)
      → (finish store env r d t l s).ledger.sleeves ≡ l.sleeves
  unfolding finish remember_receipt
  finish-sleeves env r d t l s = (save_then-Saved store _ (remember_receipt r l) s).1.sleeves

  finish-rent :
      (env : Env) (r : Receipt) (d : String) (t : Trigger) (l : Ledger) (s : S)
      → (finish store env r d t l s).ledger.rent_first ≡ l.rent_first
  unfolding finish remember_receipt
  finish-rent env r d t l s = (save_then-Saved store _ (remember_receipt r l) s).1.rent

-- What keeps a move from a sleeve whose money is all reserved for rent.
move_reasons-none :
    (p : Policy) (f : String) (amount : ℤ) (l : Ledger)
    → move_reasons p f amount l ≡ []
    → (pos 0 <ℤ amount)
      × (amount ≤ℤ balance l f)
      × (is_locked p f ≡ false)
      × ((str_eq f "locked" ≡ true) → amount ≤ℤ balance l "locked" -ℤ l.rent_first.reserved)
unfolding move_reasons
move_reasons-none p f amount l h = (ground arith, ground arith, ground arith, λ e. ground arith)

release_rent-sleeves :
    (f t : String) (amount : ℤ) (l : Ledger) → (release_rent f t amount l).sleeves ≡ l.sleeves
unfolding release_rent
release_rent-sleeves f t amount l = ground arith

-- A move between two sleeves of the ledger runs on the money that its guards have found.
runs :
    (f t : String) (amount : ℤ) (l : Ledger)
    → is_known f ≡ true
    → is_known t ≡ true
    → amount ≤ℤ balance l f
    → (move_internal f t (cents amount) l).0 ≡ ok tt
runs f t amount l kf kt h =
    let h' : money (cents amount) ≤ℤ balance l f = rw (money-cents amount) h in
    ap (λ x. x.0) (move_internal-ok f t (cents amount) l kf kt h')

module _ {S : Type 0} (store : LedgerStore S) (env : Env) (p : Policy) (f t : String) where
  move_now-net_worth :
      (amount : ℤ) (action decision_id key : String) (l : Ledger) (s : S)
      → is_known f ≡ true
      → is_known t ≡ true
      → net_worth (move_now store env p f t amount action decision_id key l s).ledger ≡ net_worth l
  unfolding move_now record_movement
  move_now-net_worth amount action decision_id key l s kf kt =
      elim (List-cases (move_reasons p f amount l)) [
        | inr (x, xs, e) ↦ rw (e, move_now) (ap total (finish-sleeves store env _ _ _ l s))
        | inl e ↦
            let (p₀, covered, unlocked, rest) = move_reasons-none p f amount l e in
            let run = runs f t amount l kf kt covered in
            rw (e, move_now)
              (rw (run, move_now)
                (ap total (
                    finish-sleeves store env _ _ _ _ s
                    ∙ release_rent-sleeves f t amount (move_internal f t (cents amount) l).1)
                  ∙ net_worth-move_internal f t (cents amount) l run))
      ]

  -- A move between two known sleeves keeps the sum of the sleeves on every path: a replay, a
  -- refusal, a move, and a save that raises.
  pub move_between_sleeves-net_worth :
      (amount : Decimal) (action decision_id : String) (l : Ledger) (s : S)
      → is_known f ≡ true
      → is_known t ≡ true
      → net_worth (move_between_sleeves store env p f t amount action decision_id l s).ledger
        ≡ net_worth l
  unfolding move_between_sleeves
  move_between_sleeves-net_worth amount action decision_id l s kf kt =
      let key = move_key env action decision_id (money amount) in
      elim (Option-cases (receipt_for key env.at l)) [
        | inr (r, e) ↦ rw (e, move_between_sleeves) refl
        | inl e ↦
            rw (e, move_between_sleeves)
              (move_now-net_worth (money amount) action decision_id key l s kf kt)
      ]

spendable≢locked : ◌≢◌ {A = String} "spendable" "locked"
spendable≢locked e = false≢true ((eq_iff "spendable" "locked").1 e)

locked≢spendable : ◌≢◌ {A = String} "locked" "spendable"
locked≢spendable e = spendable≢locked (sym e)

-- what a ledger lets a move take out of `locked`
abbrev pub unlockable : Ledger → ℤ
unlockable l = balance l "locked" -ℤ l.rent_first.reserved

-- What an unlock leaves on the ledger.
abbrev Unlocked : ℤ → Ledger → Ledger → Type 0
Unlocked m l l' =
    (balance l' "locked" ≡ balance l "locked" -ℤ m)
    × (l'.rent_first.reserved ≡ l.rent_first.reserved -ℤ min_ℤ l.rent_first.reserved m)

module _ {S : Type 0} (store : LedgerStore S) (env : Env) (p : Policy) (l : Ledger) (s : S) where
  move_now-Unlocked :
      (m : ℤ) (action decision_id key : String)
      → move_reasons p "locked" m l ≡ []
      → Unlocked m l (move_now store env p "locked" "spendable" m action decision_id key l s).ledger
  unfolding move_now record_movement is_known release_rent balance
  move_now-Unlocked m action decision_id key e =
      let (p₀, covered, unlocked, rest) = move_reasons-none p "locked" m l e in
      let c = money-cents m in
      let h : money (cents m) ≤ℤ balance l "locked" = rw c covered in
      let run = move_internal-ok "locked" "spendable" (cents m) l refl refl h in
      let moved =
        move_internal-MovedFunds "locked" "spendable" (cents m) l locked≢spendable refl refl h in
      let (sum, (paid, put, others)) = rw c at moved in
      let rent : (move_internal "locked" "spendable" (cents m) l).1.rent_first ≡ l.rent_first =
        ap (λ (x : Result (Unit {0}) × Ledger). x.1.rent_first) run in
      rw (e, move_now)
        (rw (ap (λ x. x.0) run, move_now)
          (
            ap (λ d. get_or (lookup "locked" d) (pos 0)) (finish-sleeves store env _ _ _ _ s)
                ∙ paid,
            ap (λ (r : RentFirst). r.reserved) (finish-rent store env _ _ _ _ s)
                ∙ ap (λ (r : RentFirst). r.reserved -ℤ min_ℤ r.reserved m) rent,
          ))

  -- An unlock under a new key that the guards allow, of an amount up to the rent reserve, takes
  -- the same amount off the reserve on record as off the locked sleeve: what may be unlocked
  -- afterwards is as much as before, so a second unlock reaches the money that was reserved for
  -- rent.
  unlock_releases_rent :
      (amount : Decimal) (action decision_id : String)
      → receipt_for (move_key env action decision_id (money amount)) env.at l ≡ none
      → move_reasons p "locked" (money amount) l ≡ []
      → money amount ≤ℤ l.rent_first.reserved
      → let l' =
          (move_between_sleeves store env p "locked" "spendable" amount action decision_id l
            s).ledger in
        (balance l' "locked" ≡ balance l "locked" -ℤ money amount)
        × (l'.rent_first.reserved ≡ l.rent_first.reserved -ℤ money amount)
        × (unlockable l' ≡ unlockable l)
  unfolding move_between_sleeves
  unlock_releases_rent amount action decision_id fresh allowed within =
      let key = move_key env action decision_id (money amount) in
      let (left, reserve) = move_now-Unlocked (money amount) action decision_id key allowed in
      rw (fresh, move_between_sleeves)
        (left, grind (int_laws, reserve), grind (int_laws, left, reserve))
