-- ===== src/Split/Gains.antt =====
-- `split_inflow` of miriam_agent/hands/split.py, before it saves: what it adds to the balances of the
-- caller's copy of the ledger, and what it reserves for the rent.
use mathlib.Core.Bool.{false≢true}
use miriam.Prelude.{
  ◌≡◌, ◌≢◌, refl, ◌∙◌, ap, arith, int_laws, eq_of_parts, ℕ, String, ℤ, pos, ◌+ℤ◌, ◌-ℤ◌, ◌≤ℤ◌, ◌<ℤ◌,
  lt→ltb, ltb→lt, eq_iff, ltb_ℤ, max_ℤ, true, false, ◌⊎◌, inl, inr, Bool-cases, [], ◌∷◌, Dict,
  if◌then◌else◌,
}
use miriam.Decimal.{money, cents}
use miriam.Decimal.Rounding.{money-cents}
use miriam.Ledger.{
  RentFirst, Ledger, Result, ok, is_known, move_internal, put_balance, balance, gap,
  record_movement,
}
use miriam.Ledger.Balances.{
  net_worth, credit-known, net_worth-put_balance, move_internal-MovedFunds, move_internal-ok,
  and_then-run,
}
use miriam.TransferReceipts.{Env}
use miriam.Split.{
  Parts, split_parts, parts_dict, credit_parts, rent_reserve_target, record_reserve, reserve_rent,
  credited, apply_split, reserved_now, inflow_movement, InflowRequest,
}

-- what the positive parts add up to
abbrev pub positive_sum : Dict ℤ → ℤ
positive_sum [] = pos 0
positive_sum ((s, v) ∷ parts) = (if ltb_ℤ (pos 0) v then v else pos 0) +ℤ positive_sum parts

abbrev AllKnown : Dict ℤ → Type 0
AllKnown [] = Unit {0}
AllKnown ((s, v) ∷ parts) = (is_known s ≡ true) × AllKnown parts

credit_parts-ok :
    (d : Dict ℤ) (l : Ledger)
    → AllKnown d
    → ((credit_parts d l).0 ≡ ok tt)
      × (net_worth (credit_parts d l).1 ≡ net_worth l +ℤ positive_sum d)
      × ((credit_parts d l).1.rent_first ≡ l.rent_first)
unfolding credit_parts
credit_parts-ok [] l k = (refl, grind int_laws, refl)
credit_parts-ok ((s, v) ∷ d) l k = elim (Bool-cases (ltb_ℤ (pos 0) v)) [
  | inl e ↦
      let l' = put_balance l s (balance l s +ℤ money (cents v)) in
      let (run, sum, rent) = credit_parts-ok d l' k.1 in
      rw (e, credit-known s (cents v) l k.0)
        (
          run,
          grind (
            int_laws,
            sum,
            money-cents v,
            net_worth-put_balance l s (balance l s +ℤ money (cents v)),
          ),
          rent,
        )
  | inr e ↦
      let (run, sum, rent) = credit_parts-ok d l k.1 in rw e (run, grind (int_laws, sum), rent)
]

parts_dict-AllKnown : (p : Parts) → AllKnown (parts_dict p)
unfolding is_known
parts_dict-AllKnown p = (refl, (refl, (refl, tt)))

credited-ok :
    (env : Env) (q : InflowRequest) (l : Ledger)
    → ((credited env q l).0 ≡ ok tt)
      × (net_worth (credited env q l).1
          ≡ net_worth l +ℤ positive_sum (parts_dict (split_parts l.track q.amount)))
      × ((credited env q l).1.rent_first ≡ l.rent_first)
unfolding credited record_movement
credited-ok env q l =
    let parts = parts_dict (split_parts l.track q.amount) in
    let (run, sum, rent) =
      credit_parts-ok parts l (parts_dict-AllKnown (split_parts l.track q.amount)) in
    rw
      (and_then-run (credit_parts parts l)
        (λ l'.
          (ok tt, record_movement (inflow_movement env.at (money q.amount) q.source_raw q.id) l'))
        run)
      (refl, sum, rent)

-- The target is never negative, and never more than what is spendable.
rent_reserve_target_bounds :
    (l : Ledger) (spendable : ℤ)
    → (pos 0 ≤ℤ rent_reserve_target l spendable)
      × (rent_reserve_target l spendable ≤ℤ max_ℤ (pos 0) spendable)
unfolding rent_reserve_target
rent_reserve_target_bounds l spendable = (ground arith, ground arith)

record_reserve-balance :
    (at : ℕ) (m : ℤ) (l : Ledger) (s : String) → balance (record_reserve at m l) s ≡ balance l s
unfolding record_reserve balance
record_reserve-balance at m l s = refl

-- A reserve of spendable money moves exactly that into `locked`, and on record.
abbrev pub Reserved : ℤ → Ledger → Ledger → Type 0
Reserved m l l' =
    (net_worth l' ≡ net_worth l)
    × (balance l' "spendable" ≡ balance l "spendable" -ℤ m)
    × (balance l' "locked" ≡ balance l "locked" +ℤ m)
    × (l'.rent_first.reserved ≡ l.rent_first.reserved +ℤ m)
    × (l'.rent_first.required ≡ l.rent_first.required)

spendable≢locked : ◌≢◌ {A = String} "spendable" "locked"
spendable≢locked e = false≢true ((eq_iff "spendable" "locked").1 e)

reserve_positive :
    (at : ℕ) (m : ℤ) (l : Ledger)
    → pos 0 <ℤ m
    → m ≤ℤ balance l "spendable"
    → ((reserve_rent at m l).0 ≡ ok tt) × Reserved m l (reserve_rent at m l).1
unfolding reserve_rent record_reserve is_known
reserve_positive at m l p h =
    let test : ltb_ℤ (pos 0) m ≡ true = lt→ltb _ _ p in
    let c = money-cents m in
    let h' : money (cents m) ≤ℤ balance l "spendable" = rw c h in
    let run = move_internal-ok "spendable" "locked" (cents m) l refl refl h' in
    let moved =
      move_internal-MovedFunds "spendable" "locked" (cents m) l spendable≢locked refl refl h' in
    let l₁ = (move_internal "spendable" "locked" (cents m) l).1 in
    let (sum, (paid, put, others)) = rw c at moved in
    let rent : l₁.rent_first ≡ l.rent_first =
      ap (λ (x : Result (Unit {0}) × Ledger). x.1.rent_first) run in
    rw
      (
        test,
        and_then-run (move_internal "spendable" "locked" (cents m) l)
            (λ l'. (ok tt, record_reserve at m l')) (ap (λ x. x.0) run),
      )
      (
        refl,
        (
          sum,
          record_reserve-balance at m l₁ "spendable" ∙ paid,
          record_reserve-balance at m l₁ "locked" ∙ put,
          ap (λ (r : RentFirst). r.reserved +ℤ m) rent,
          ap (λ (r : RentFirst). r.required) rent,
        ),
      )

Reserved-nothing : (m : ℤ) (l : Ledger) → m ≡ pos 0 → Reserved m l l
Reserved-nothing m l e = rw e (refl, omega int_laws, omega int_laws, omega int_laws, refl)

-- The reserve that `split_inflow` makes is never more than what is spendable, so it never raises.
reserve_rent-ok :
    (at : ℕ) (m : ℤ) (l : Ledger)
    → pos 0 ≤ℤ m
    → m ≤ℤ max_ℤ (pos 0) (balance l "spendable")
    → ((reserve_rent at m l).0 ≡ ok tt) × Reserved m l (reserve_rent at m l).1
unfolding reserve_rent
reserve_rent-ok at m l p h = elim (Bool-cases (ltb_ℤ (pos 0) m)) [
  | inl e ↦ reserve_positive at m l (ltb→lt _ _ e) (ground arith)
  | inr e ↦ rw e (refl, Reserved-nothing m l (eq_of_parts m (pos 0) (ground arith)))
]

-- What `split_inflow` does to the caller's ledger before it is saved: it never raises, it adds the
-- positive parts, and the reserve only moves money between the user's own sleeves.
pub apply_split-ok :
    (env : Env) (q : InflowRequest) (l : Ledger)
    → ((apply_split env q l).0 ≡ ok tt)
      × (net_worth (apply_split env q l).1
          ≡ net_worth l +ℤ positive_sum (parts_dict (split_parts l.track q.amount)))
      × Reserved (reserved_now env q l) (credited env q l).1 (apply_split env q l).1
unfolding apply_split reserved_now
apply_split-ok env q l =
    let (run, sum, rent) = credited-ok env q l in
    let l₁ = (credited env q l).1 in
    let m = rent_reserve_target l₁ (balance l₁ "spendable") in
    let b = rent_reserve_target_bounds l₁ (balance l₁ "spendable") in
    let (run', kept) = reserve_rent-ok env.at m l₁ b.0 b.1 in
    rw
      (and_then-run (credited env q l)
        (λ l'. reserve_rent env.at (rent_reserve_target l' (balance l' "spendable")) l') run)
      (run', kept.0 ∙ sum, kept)

gap-covers : (r : RentFirst) → r.required ≤ℤ r.reserved +ℤ gap r
unfolding gap
gap-covers r = grind int_laws

positive_part : (v : ℤ) → pos 0 ≤ℤ v → (if ltb_ℤ (pos 0) v then v else pos 0) ≡ v
positive_part v h = elim (Bool-cases (ltb_ℤ (pos 0) v)) [
  | inl e ↦ rw e
  | inr e ↦ rw e (eq_of_parts (pos 0) v (ground arith))
]

-- Where what is spendable is not negative, the reserve covers the rent that is required, or it
-- takes all that is spendable.
rent_first_target :
    (l : Ledger) (spendable : ℤ)
    → pos 0 ≤ℤ spendable
    → let m = rent_reserve_target l spendable in
      (l.rent_first.required ≤ℤ l.rent_first.reserved +ℤ m) ⊎ (spendable ≡ m)
unfolding rent_reserve_target
rent_first_target l spendable h = grind (int_laws, gap-covers l.rent_first)

-- the parts are all zero or more
abbrev pub AllPartsNonNeg : Parts → Type 0
AllPartsNonNeg p = (pos 0 ≤ℤ p.spendable) × (pos 0 ≤ℤ p.savings) × (pos 0 ≤ℤ p.yield_)

pub positive_sum-parts :
    (p : Parts)
    → AllPartsNonNeg p
    → positive_sum (parts_dict p) ≡ p.spendable +ℤ p.savings +ℤ p.yield_
positive_sum-parts p h =
    rw (positive_part p.spendable h.0, positive_part p.savings h.1, positive_part p.yield_ h.2)
      (omega int_laws)

pub positive_sum-negative :
    (p : Parts)
    → p.spendable <ℤ pos 0
    → pos 0 ≤ℤ p.savings
    → pos 0 ≤ℤ p.yield_
    → positive_sum (parts_dict p) ≡ p.savings +ℤ p.yield_
positive_sum-negative p n hs hy =
    let e : ltb_ℤ (pos 0) p.spendable ≡ false = ground arith in
    rw (positive_part p.savings hs, positive_part p.yield_ hy, e) (omega int_laws)
