-- ===== src/Moves/Yields.antt =====
-- `route_yield` of miriam_agent/hands/transfer.py: where the money goes when the yield rail is down,
-- and when `spendable` is short.
use mathlib.Core.Bool.{false≢true}
use mathlib.Core.Path.{subst}
use miriam.Prelude.{
  ◌≡◌, ◌≢◌, refl, sym, ◌∙◌, ap, String, ℤ, pos, ◌+ℤ◌, ◌≤ℤ◌, ◌<ℤ◌, true, false, ◌⊎◌, inl, inr,
  Option, none, some, [], ◌∷◌, eq_iff, lookup, get_or, total, if◌then◌else◌,
}
use miriam.Decimal.{Decimal, money, cents}
use miriam.Decimal.Rounding.{money-cents}
use miriam.Audit.{Receipt, parked, system, yield_rail_down}
use miriam.Ledger.{
  Ledger, ok, err, Error, ledger_error, balance, is_known, move_internal, receipt_for,
  remember_receipt,
}
use miriam.Ledger.Balances.{
  move_internal-MovedFunds, move_internal-ok, move_internal-short, net_worth,
}
use miriam.Limits.{Policy}
use miriam.Store.{LedgerStore}
use miriam.TransferReceipts.{Env, Outcome, Done, audit_row, save_then}
use miriam.TransferReceipts.Saving.{save_then-Saved}
use miriam.Transfer.{Rail, RailOutcome}
use miriam.Moves.{
  moved_receipt, finish, routed, route_yield, yield_outcome, yield_key, yield_instruction,
}

yield≢spendable : ◌≢◌ {A = String} "yield" "spendable"
yield≢spendable e = false≢true ((eq_iff "yield" "spendable").1 e)

module _ {S : Type 0} (store : LedgerStore S) (env : Env) (p : Policy) (l : Ledger) (s : S) where
  routed-short :
      (o : RailOutcome) (amount : ℤ) (decision_id key : String)
      → balance l "spendable" <ℤ amount
      → ((routed store env p amount decision_id key o l s).result ≡ err ledger_error)
        × ((routed store env p amount decision_id key o l s).ledger ≡ l)
        × ((routed store env p amount decision_id key o l s).store ≡ s)
  unfolding routed
  routed-short o amount decision_id key short =
      let short' : balance l "spendable" <ℤ money (cents amount) = rw (money-cents amount) short in
      let sleeve = if o.ok then "yield" else p.yield_fallback in
      let raised = move_internal-short "spendable" sleeve (cents amount) l short' in
      rw (ap (λ x. x.0) raised, routed) (refl, ap (λ x. x.1) raised, refl)

  -- Under a new key, with `spendable` short, the yield rail is called all the same, and then the
  -- call raises: the ledger, the receipts and the store hear nothing of what the rail has moved.
  route_yield-short :
      (rail : Rail) (amount : Decimal) (decision_id : String)
      → let key = yield_key env l (money amount) in
        receipt_for key env.at l ≡ none
        → balance l "spendable" <ℤ money amount
        → let (d, calls) = route_yield store env p (some rail) amount decision_id l s in
          (calls ≡ yield_instruction (money amount) key l ∷ [])
          × (d.result ≡ err ledger_error)
          × (d.ledger ≡ l)
          × (d.store ≡ s)
  unfolding route_yield
  route_yield-short rail amount decision_id fresh short =
      let key = yield_key env l (money amount) in
      let (result, kept, held) =
        routed-short (rail.execute (yield_instruction (money amount) key l)) (money amount)
          decision_id key short in
      rw (fresh, route_yield) (refl, result, kept, held)

  -- A call that has parked: it returns a receipt that says so and names no rail reference, or the
  -- save has raised; the money stands in the fallback sleeve, and `yield` has none of it.
  abbrev pub Parked : ℤ → Done Outcome S → Type 0
  Parked m d =
      (((o : Outcome) × (d.result ≡ ok o)
          × (o.receipt.status ≡ parked)
          × (o.receipt.rail_reference ≡ ""))
        ⊎ ((e : Error) × (d.result ≡ err e) × (d.store ≡ s)))
      × (net_worth d.ledger ≡ net_worth l)
      × (balance d.ledger "yield" ≡ balance l "yield")
      × (balance d.ledger p.yield_fallback ≡ balance l p.yield_fallback +ℤ m)

  finish-Parked :
      (r : Receipt) (m : ℤ) (d : String) (l₁ : Ledger)
      → r.status ≡ parked
      → r.rail_reference ≡ ""
      → (net_worth l₁ ≡ net_worth l)
        × (balance l₁ "yield" ≡ balance l "yield")
        × (balance l₁ p.yield_fallback ≡ balance l p.yield_fallback +ℤ m)
      → Parked m (finish store env r d system l₁ s)
  unfolding finish remember_receipt balance
  finish-Parked r m d l₁ status reference (worth, kept, put) =
      let o : Outcome = record { receipt = r; audit = audit_row env l₁ r d system ∷ [] } in
      let (saved, books) = save_then-Saved store o (remember_receipt r l₁) s in
      let same : (save_then store o (remember_receipt r l₁) s).ledger.sleeves ≡ l₁.sleeves =
        books.sleeves in
      (
        elim saved [
          | inl (result, held) ↦ inl (o, result, status, reference)
          | inr (e, result, held) ↦ inr (e, result, held)
        ],
        ap total same ∙ worth,
        ap (λ x. get_or (lookup "yield" x) (pos 0)) same ∙ kept,
        ap (λ x. get_or (lookup p.yield_fallback x) (pos 0)) same ∙ put,
      )

  routed-Parked :
      (reference : String) (m : ℤ) (decision_id key : String)
      → is_known p.yield_fallback ≡ true
      → p.yield_fallback ≢ "yield"
      → p.yield_fallback ≢ "spendable"
      → m ≤ℤ balance l "spendable"
      → Parked m
          (routed store env p m decision_id key (record { ok = false; reference = reference }) l s)
  unfolding routed moved_receipt is_known
  routed-Parked reference m decision_id key known y n h =
      let c = money-cents m in
      let h' : money (cents m) ≤ℤ balance l "spendable" = rw c h in
      let run = move_internal-ok "spendable" p.yield_fallback (cents m) l refl known h' in
      let moved =
        move_internal-MovedFunds "spendable" p.yield_fallback (cents m) l (λ e. n (sym e)) refl
          known h' in
      let (worth, (paid, put, others)) = rw c at moved in
      let l₁ = (move_internal "spendable" p.yield_fallback (cents m) l).1 in
      let r =
        moved_receipt env parked "yield_route" m "yield_partner" p.yield_fallback decision_id key
          (yield_rail_down ∷ []) "" l.sleeves l₁ in
      rw (ap (λ x. x.0) run, routed)
        (finish-Parked r m decision_id l₁ refl refl
          (worth, others "yield" yield≢spendable (λ e. y (sym e)), put))

  -- Under a new key, with the yield rail down or absent, money that `spendable` holds is parked in
  -- the policy's fallback sleeve, a known one other than `yield` and `spendable`: nothing is
  -- credited to `yield`, the sum of the sleeves stays, and the call returns a receipt that says
  -- parked and names no rail reference, or raises what the store raised.
  pub route_yield-Parked :
      (rail : Option Rail) (amount : Decimal) (decision_id : String)
      → let key = yield_key env l (money amount) in
        receipt_for key env.at l ≡ none
        → (yield_outcome rail (yield_instruction (money amount) key l)).0.ok ≡ false
        → is_known p.yield_fallback ≡ true
        → p.yield_fallback ≢ "yield"
        → p.yield_fallback ≢ "spendable"
        → money amount ≤ℤ balance l "spendable"
        → Parked (money amount) (route_yield store env p rail amount decision_id l s).0
  unfolding route_yield
  route_yield-Parked rail amount decision_id fresh down known y n h =
      let key = yield_key env l (money amount) in
      let o = (yield_outcome rail (yield_instruction (money amount) key l)).0 in
      let is_down : o ≡ record { ok = false; reference = o.reference } =
        λ i. record { ok = down i; reference = o.reference } in
      rw (fresh, route_yield)
        (subst
          (λ x. Parked (money amount) (routed store env p (money amount) decision_id key x l s))
          (sym is_down) (routed-Parked o.reference (money amount) decision_id key known y n h))
