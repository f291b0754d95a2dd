-- ===== src/Host/Frames.antt =====
-- What the calls at the Go host leave alone: the money of a ledger and the keys that it has processed.
use miriam.Prelude.{
  ◌≡◌, refl, ◌∙◌, ap, inl, inr, Bool, true, false, List, String, Option, Dict, lookup, Option-cases,
  if◌then◌else◌, ◌≢◌, arith, ◌<◌,
}
use Prim.Native.String.{len, ◌++◌ as join}
use text.Mathlib.TextPositions.{len-append}
use miriam.Audit.{Receipt}
use miriam.Ledger.{Ledger, Challenge, Result, ok, err, remember_receipt, touch}
use miriam.Ledger.Receipts.{IsProcessed, remember_receipt-keeps}
use miriam.Store.{LedgerStore}
use miriam.Store.Race.{Result-cases}
use miriam.Host.{Card, Site, remembered, save_site, and_next, Request}

-- A key with a prefix is not empty.
pub prefixed-ne : (a b : String) → 0 < len a → join a b ≢ ""
prefixed-ne a b h e =
    let zero_len : len (join a b) ≡ 0 = ap len e in
    absurd (omega (arith, h, len-append a b, zero_len))

-- The same balances, movements and reserved rent, for the same user.
abbrev pub SameMoney : Ledger → Ledger → Type 0
SameMoney l l' =
    (l'.sleeves ≡ l.sleeves)
    × (l'.movements ≡ l.movements)
    × (l'.rent_first ≡ l.rent_first)
    × (l'.user_id ≡ l.user_id)

-- A property of the ledger that a call leaves.
abbrev pub Leaves : {S A : Type 0} → (Ledger → Type 0) → Result A × Site S → Type 0
Leaves P r = P r.1.ledger

-- What no version, no receipt and no challenge can break.
pub record IsStable (P : Ledger → Type 0) : Type 0 where
  pub touched : (l : Ledger) → P l → P (touch l)
  pub noted : (r : Receipt) (l : Ledger) → P l → P (remember_receipt r l)
  pub challenged : (cs : Dict Challenge) (l : Ledger) → P l → P (record l { challenges = cs })

pub SameMoney-IsStable : (l : Ledger) → IsStable (SameMoney l)
unfolding touch remember_receipt
SameMoney-IsStable l = record { touched = λ k h. h; noted = λ r k h. h; challenged = λ cs k h. h }

IsProcessed-remember_receipt :
    (key : String) (r : Receipt) (l : Ledger)
    → IsProcessed key l
    → IsProcessed key (remember_receipt r l)
IsProcessed-remember_receipt key r l h = elim (Option-cases (lookup key l.processed)) [
  | inl e ↦ absurd (cc (e, h))
  | inr (id, e) ↦ rw (remember_receipt-keeps key id r l e) refl
]

pub IsProcessed-IsStable : (key : String) → IsStable (IsProcessed key)
unfolding touch
IsProcessed-IsStable key = record {
  touched = λ k h. h;
  noted = λ r k h. IsProcessed-remember_receipt key r k h;
  challenged = λ cs k h. h;
}

pub if-Leaves :
    {S A : Type 0} (P : Ledger → Type 0) (b : Bool) (x y : Result A × Site S)
    → Leaves P x
    → Leaves P y
    → Leaves P (if b then x else y)
if-Leaves P true x y h k = h
if-Leaves P false x y h k = k

pub and_next-Leaves :
    {S A B : Type 0} (P : Ledger → Type 0) (r : Result A × Site S)
    (f : A → Site S → Result B × Site S)
    → Leaves P r
    → ((a : A) (t : Site S) → P t.ledger → Leaves P (f a t))
    → Leaves P (and_next r f)
and_next-Leaves P (ok a, t) f h k = k a t h
and_next-Leaves P (err e, t) f h k = h

-- A save changes no more than the version.
pub save_site-touched :
    {S A : Type 0} (P : Ledger → Type 0)
    → ((l : Ledger) → P l → P (touch l))
    → (store : LedgerStore S) (a : A) (t : Site S) → P t.ledger
    → Leaves P (save_site store a t)
unfolding save_site
save_site-touched P v store a t h = elim (Result-cases (store.save t.ledger t.store).0) [
  | inl (l', e) ↦ rw (e, save_site) (rw (store.save-ok t.ledger t.store e) (v t.ledger h))
  | inr (x, e) ↦ rw (e, save_site) h
]

module _ {S : Type 0} (P : Ledger → Type 0) (v : IsStable P) where
  pub remembered-Leaves :
      (r : Receipt) (card : Option Card) (t : Site S) → P t.ledger → Leaves P (remembered r card t)
  unfolding remembered
  remembered-Leaves r card t h = v.noted r t.ledger h

  pub save_site-Leaves :
      {A : Type 0} (store : LedgerStore S) (a : A) (t : Site S)
      → P t.ledger
      → Leaves P (save_site store a t)
  save_site-Leaves store a t h = save_site-touched P v.touched store a t h

-- What a call has asked the host, in the end.
pub save_site-asked :
    {S A : Type 0} (store : LedgerStore S) (a : A) (t : Site S)
    → (save_site store a t).1.asked ≡ t.asked
unfolding save_site
save_site-asked store a t = elim (Result-cases (store.save t.ledger t.store).0) [
  | inl (l', e) ↦ rw (e, save_site) refl
  | inr (x, e) ↦ rw (e, save_site) refl
]

pub remembered-asked :
    {S : Type 0} (r : Receipt) (card : Option Card) (t : Site S)
    → (remembered r card t).1.asked ≡ t.asked
unfolding remembered
remembered-asked r card t = refl

pub if-asked :
    {S A : Type 0} {qs : List Request} (b : Bool) (x y : Result A × Site S)
    → x.1.asked ≡ qs
    → y.1.asked ≡ qs
    → (if b then x else y).1.asked ≡ qs
if-asked true x y h k = h
if-asked false x y h k = k

pub and_next-asked :
    {S A B : Type 0} {qs : List Request} (r : Result A × Site S)
    (f : A → Site S → Result B × Site S)
    → r.1.asked ≡ qs
    → ((a : A) (t : Site S) → (f a t).1.asked ≡ t.asked)
    → (and_next r f).1.asked ≡ qs
and_next-asked (ok a, t) f h k = k a t ∙ h
and_next-asked (err e, t) f h k = h

-- A call that ends in a save returns what it was to return, or raises.
pub save_site-result :
    {S A : Type 0} (store : LedgerStore S) (a b : A) (t : Site S)
    → (save_site store a t).0 ≡ ok b
    → b ≡ a
unfolding save_site
save_site-result store a b t h = elim (Result-cases (store.save t.ledger t.store).0) [
  | inl (l', e) ↦ cc (e, h)
  | inr (x, e) ↦ cc (e, h)
]
