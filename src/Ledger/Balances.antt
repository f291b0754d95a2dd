-- ===== src/Ledger/Balances.antt =====
-- `credit`, `debit` and `move_internal` of miriam_agent/hands/ledger.py, by what they do to the
-- balances and to their sum.
use miriam.Prelude.{
  ◌≡◌, ◌≢◌, refl, String, ℤ, pos, ◌+ℤ◌, ◌-ℤ◌, ◌≤ℤ◌, ◌<ℤ◌, int_laws, true, arith, total,
  total-insert, lookup-insert, str_eq, eq_iff, eq_refl, if◌then◌else◌,
}
use miriam.Decimal.{Decimal, money}
use miriam.Ledger.{
  Ledger, Result, and_then, ok, err, ledger_error, balance, is_known, put_balance, credit, debit,
  move_internal,
}

abbrev pub net_worth : Ledger → ℤ
net_worth l = total l.sleeves

-- Writing one balance changes the sum by the difference.
pub net_worth-put_balance :
    (l : Ledger) (s : String) (v : ℤ)
    → net_worth (put_balance l s v) +ℤ balance l s ≡ net_worth l +ℤ v
unfolding balance
net_worth-put_balance l s v = total-insert s v l.sleeves

pub balance-put_balance :
    (l : Ledger) (s t : String) (v : ℤ)
    → balance (put_balance l s v) t ≡ (if str_eq s t then v else balance l t)
unfolding balance
balance-put_balance l s t v = ground (arith, lookup-insert s t v l.sleeves)

pub balance-put_balance_self : (l : Ledger) (s : String) (v : ℤ) → balance (put_balance l s v) s ≡ v
balance-put_balance_self l s v = simp (balance-put_balance, eq_refl)

-- A debit that succeeds had the money.
pub debit-ok_iff :
    (s : String) (a : Decimal) (l : Ledger)
    → is_known s ≡ true
    → money a ≤ℤ balance l s
    → debit s a l ≡ (ok tt, put_balance l s (balance l s -ℤ money a))
unfolding debit
debit-ok_iff s a l k h = ground arith

pub debit-short :
    (s : String) (a : Decimal) (l : Ledger)
    → balance l s <ℤ money a
    → debit s a l ≡ (err ledger_error, l)
unfolding debit
debit-short s a l h = ground arith

abbrev pub NonNeg : Ledger → Type 0
NonNeg l = (s : String) → pos 0 ≤ℤ balance l s

-- On a ledger with no negative balance, no debit, of any amount, from any sleeve, leaves a
-- negative balance.
pub debit-NonNeg : (s : String) (a : Decimal) (l : Ledger) → NonNeg l → NonNeg (debit s a l).1
unfolding debit
debit-NonNeg s a l h t =
    grind (int_laws, h s, h t, balance-put_balance l s t (balance l s -ℤ money a))

pub credit-NonNeg :
    (s : String) (a : Decimal) (l : Ledger) → pos 0 ≤ℤ money a → NonNeg l → NonNeg (credit s a l).1
unfolding credit
credit-NonNeg s a l p h t =
    grind (int_laws, h s, h t, balance-put_balance l s t (balance l s +ℤ money a))

-- A known sleeve is credited by exactly the rounded amount.
pub net_worth-credit :
    (s : String) (a : Decimal) (l : Ledger)
    → is_known s ≡ true
    → net_worth (credit s a l).1 ≡ net_worth l +ℤ money a
unfolding credit
net_worth-credit s a l k = grind (int_laws, net_worth-put_balance l s (balance l s +ℤ money a))

-- A debit that succeeds is a write of the difference, of money that was there.
pub debit-inversion :
    (s : String) (a : Decimal) (l : Ledger)
    → (debit s a l).0 ≡ ok tt
    → ((debit s a l).1 ≡ put_balance l s (balance l s -ℤ money a))
      × (money a ≤ℤ balance l s)
      × (is_known s ≡ true)
unfolding debit
debit-inversion s a l h = ground arith

pub net_worth-debit :
    (s : String) (a : Decimal) (l : Ledger)
    → (debit s a l).0 ≡ ok tt
    → net_worth (debit s a l).1 +ℤ money a ≡ net_worth l
net_worth-debit s a l k =
    rw (debit-inversion s a l k).0
      (grind (int_laws, net_worth-put_balance l s (balance l s -ℤ money a)))

-- A raise of `debit` has changed nothing.
pub debit-err :
    (s : String) (a : Decimal) (l : Ledger) → (debit s a l).0 ≢ ok tt → (debit s a l).1 ≡ l
unfolding debit
debit-err s a l h = ground arith

abbrev pub MovedFunds : String → String → ℤ → Ledger → Ledger → Type 0
MovedFunds f t m l l' =
    (balance l' f ≡ balance l f -ℤ m)
    × (balance l' t ≡ balance l t +ℤ m)
    × ((s : String) → s ≢ f → s ≢ t → balance l' s ≡ balance l s)

-- credit as a write
pub credit-known :
    (s : String) (a : Decimal) (l : Ledger)
    → is_known s ≡ true
    → credit s a l ≡ (ok tt, put_balance l s (balance l s +ℤ money a))
unfolding credit
credit-known s a l k = ground arith

module _ (f t : String) (a : Decimal) (l : Ledger) where
  abbrev debited : Ledger
  debited = put_balance l f (balance l f -ℤ money a)

  -- An internal move between two known sleeves, of money that the first one holds.
  pub move_internal-ok :
      is_known f ≡ true
      → is_known t ≡ true
      → money a ≤ℤ balance l f
      → move_internal f t a l ≡ (ok tt, put_balance debited t (balance debited t +ℤ money a))
  unfolding move_internal
  move_internal-ok kf kt h = rw (debit-ok_iff f a l kf h) (credit-known t a debited kt)

  -- An internal move between two different known sleeves, of money that the first one holds, keeps
  -- the sum of the sleeves, moves exactly the rounded amount and leaves every other balance.
  pub move_internal-MovedFunds :
      f ≢ t
      → is_known f ≡ true
      → is_known t ≡ true
      → money a ≤ℤ balance l f
      → let l' = (move_internal f t a l).1 in
        (net_worth l' ≡ net_worth l) × (MovedFunds f t (money a) l l')
  move_internal-MovedFunds ne kf kt h =
      let first = balance-put_balance l f in
      let w = balance debited t +ℤ money a in
      let last = balance-put_balance debited t in
      let v = balance l f -ℤ money a in
      rw (move_internal-ok kf kt h) (
        grind (int_laws, net_worth-put_balance l f v, net_worth-put_balance debited t w),
        (
          grind (arith, last f w, first f v, eq_iff t f, eq_refl f),
          grind (arith, last t w, first t v, eq_iff f t, eq_refl t),
          λ s nf nt. grind (arith, last s w, first s v, eq_iff t s, eq_iff f s),
        ),
      )

-- A sequence that does not raise has run both of its parts.
pub and_then-ok :
    (x : Result (Unit {0}) × Ledger) (f : Ledger → Result (Unit {0}) × Ledger)
    → (and_then x f).0 ≡ ok tt
    → (x.0 ≡ ok tt) × ((f x.1).0 ≡ ok tt) × ((and_then x f).1 ≡ (f x.1).1)
and_then-ok (ok u, l) f h = (refl, h, refl)
and_then-ok (err e, l) f h = cc

pub and_then-run :
    (x : Result (Unit {0}) × Ledger) (f : Ledger → Result (Unit {0}) × Ledger)
    → x.0 ≡ ok tt
    → and_then x f ≡ f x.1
and_then-run (ok u, l) f h = refl
and_then-run (err e, l) f h = cc

credit-inversion :
    (s : String) (a : Decimal) (l : Ledger) → (credit s a l).0 ≡ ok tt → is_known s ≡ true
unfolding credit
credit-inversion s a l h = ground arith

-- An internal move that succeeds keeps the sum, also between a sleeve and itself.
pub net_worth-move_internal :
    (f t : String) (a : Decimal) (l : Ledger)
    → (move_internal f t a l).0 ≡ ok tt
    → net_worth (move_internal f t a l).1 ≡ net_worth l
unfolding move_internal
net_worth-move_internal f t a l h =
    let (paid, put, last) = and_then-ok (debit f a l) (credit t a) h in
    rw last (
      grind (
        int_laws,
        net_worth-credit t a (debit f a l).1 (credit-inversion t a (debit f a l).1 put),
        net_worth-debit f a l paid,
      ))

-- An internal move of more than there is raises before anything is written.
pub move_internal-short :
    (f t : String) (a : Decimal) (l : Ledger)
    → balance l f <ℤ money a
    → move_internal f t a l ≡ (err ledger_error, l)
unfolding move_internal
move_internal-short f t a l h = rw (debit-short f a l h) refl
