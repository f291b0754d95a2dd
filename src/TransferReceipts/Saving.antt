-- ===== src/TransferReceipts/Saving.antt =====
-- How a call of Hands ends, once its ledger is ready to be saved.
use miriam.Prelude.{◌≡◌, refl, ◌∙◌, ap, ◌⊎◌, inl, inr, some}
use mathlib.Core.Path.{subst}
use miriam.Ledger.{Ledger, ok, err, Error, touch}
use miriam.Store.{LedgerStore}
use miriam.Store.Race.{Result-cases}
use miriam.TransferReceipts.{Done, save_then}

-- The same ledger but for its version.
pub record SameBooks (l l' : Ledger) : Type 0 where
  pub user : l'.user_id ≡ l.user_id
  pub sleeves : l'.sleeves ≡ l.sleeves
  pub rent : l'.rent_first ≡ l.rent_first
  pub receipts : l'.receipts ≡ l.receipts
  pub movements : l'.movements ≡ l.movements
  pub processed : l'.processed ≡ l.processed
  pub challenges : l'.challenges ≡ l.challenges

SameBooks-refl : (l : Ledger) → SameBooks l l
SameBooks-refl l = record {
  user = refl;
  sleeves = refl;
  rent = refl;
  receipts = refl;
  movements = refl;
  processed = refl;
  challenges = refl;
}

SameBooks-touch : (l l' : Ledger) → l' ≡ touch l → SameBooks l l'
unfolding touch
SameBooks-touch l l' e = record {
  user = ap (λ (x : Ledger). x.user_id) e;
  sleeves = ap (λ (x : Ledger). x.sleeves) e;
  rent = ap (λ (x : Ledger). x.rent_first) e;
  receipts = ap (λ (x : Ledger). x.receipts) e;
  movements = ap (λ (x : Ledger). x.movements) e;
  processed = ap (λ (x : Ledger). x.processed) e;
  challenges = ap (λ (x : Ledger). x.challenges) e;
}

module _ {S A : Type 0} (store : LedgerStore S) where
  -- Either the call returns and the store holds the caller's ledger, or it raises what the store
  -- raised and the store holds what it held.
  abbrev pub Saved : A → Ledger → S → Done A S → Type 0
  Saved a l s d =
      ((d.result ≡ ok a) × (store.load l.user_id d.store ≡ ok (some d.ledger)))
      ⊎ ((e : Error) × (d.result ≡ err e) × (d.store ≡ s))

  pub save_then-Saved :
      (a : A) (l : Ledger) (s : S)
      → Saved a l s (save_then store a l s) × SameBooks l (save_then store a l s).ledger
  unfolding save_then
  save_then-Saved a l s = elim (Result-cases (store.save l s).0) [
    | inl (l', e) ↦
        rw (e, save_then)
          (inl (refl, store.load-save l s e), SameBooks-touch l l' (store.save-ok l s e))
    | inr (x, e) ↦ rw (e, save_then) (inr (x, refl, store.save-err l s e), SameBooks-refl l)
  ]

module _ {S : Type 0} (store : LedgerStore S) where
  -- The store holds what it held, or a ledger of this user with these challenges.
  abbrev pub Holds : Ledger → S → S → Type 0
  Holds l s s' =
      (s' ≡ s)
      ⊎ ((k : Ledger) × (store.load l.user_id s' ≡ ok (some k)) × (k.challenges ≡ l.challenges))

  pub Holds-from : (l : Ledger) (s s' s₁ : S) → s' ≡ s → Holds l s' s₁ → Holds l s s₁
  Holds-from l s s' s₁ e h = subst (λ x. Holds l x s₁) e h

  pub save-Holds :
      (l₀ l : Ledger) (s : S)
      → l.user_id ≡ l₀.user_id
      → l.challenges ≡ l₀.challenges
      → Holds l₀ s (store.save l s).1
  save-Holds l₀ l s u c = elim (Result-cases (store.save l s).0) [
    | inl (l', e) ↦ inr (
      l',
      subst (λ x. store.load x (store.save l s).1 ≡ ok (some l')) u (store.load-save l s e),
      (SameBooks-touch l l' (store.save-ok l s e)).challenges ∙ c,
    )
    | inr (x, e) ↦ inl (store.save-err l s e)
  ]

  pub save_then-Holds :
      {A : Type 0} (a : A) (l₀ l : Ledger) (s : S)
      → l.user_id ≡ l₀.user_id
      → l.challenges ≡ l₀.challenges
      → Holds l₀ s (save_then store a l s).store
  unfolding save_then
  save_then-Holds a l₀ l s u c = elim (Result-cases (store.save l s).0) [
    | inl (l', e) ↦ rw (e, save_then) (save-Holds l₀ l s u c)
    | inr (x, e) ↦ rw (e, save_then) (save-Holds l₀ l s u c)
  ]
