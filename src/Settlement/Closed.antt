-- ===== src/Settlement/Closed.antt =====
-- Challenges that are no longer open, in `_handle_confirm` and `expire_challenge` of
-- miriam_agent/hands/settlement.py and `_decline_challenge` of miriam_agent/orchestrator.py.
use miriam.Prelude.{
  ◌≡◌, refl, ◌∙◌, ap, ℕ, String, inl, inr, false, none, some, Option-cases, lookup,
}
use miriam.Audit.{Receipt}
use miriam.Ledger.{Ledger, Challenge, is_open, remember_receipt, ok, touch}
use miriam.Store.{LedgerStore}
use miriam.Store.Race.{Result-cases}
use miriam.TransferReceipts.{save_then}
use miriam.TransferReceipts.Saving.{save_then-Saved}
use miriam.Transfer.{World}
use miriam.Settlement.{Orchestrator, Tap, Turn, tap_receipt, save_turn, refuse_tap, handle_confirm}
use miriam.Settlement.Challenges.{closing_receipt, decline_challenge, expire_challenge}

-- The same money, keys and challenges.
pub record SameFunds (l l' : Ledger) : Type 0 where
  pub sleeves : l'.sleeves ≡ l.sleeves
  pub rent_first : l'.rent_first ≡ l.rent_first
  pub movements : l'.movements ≡ l.movements
  pub processed : l'.processed ≡ l.processed
  pub challenges : l'.challenges ≡ l.challenges

-- Nothing moves: no call of the rail, no journal entry, and the same ledger but for its receipts.
pub record Inert {S : Type 0} (w w' : World S) : Type 0 where
  pub calls : w'.calls ≡ w.calls
  pub reversals : w'.reversals ≡ w.reversals
  pub journal : w'.journal ≡ w.journal
  pub funds : SameFunds w.ledger w'.ledger

-- No challenge with this id is open.
abbrev pub NotOpen : ℕ → String → Ledger → Type 0
NotOpen at id l = (c : Challenge) → lookup id l.challenges ≡ some c → is_open c at ≡ false

SameFunds-touch : (l l' : Ledger) → l' ≡ touch l → SameFunds l l'
unfolding touch
SameFunds-touch l l' e = record {
  sleeves = ap (λ (x : Ledger). x.sleeves) e;
  rent_first = ap (λ (x : Ledger). x.rent_first) e;
  movements = ap (λ (x : Ledger). x.movements) e;
  processed = ap (λ (x : Ledger). x.processed) e;
  challenges = ap (λ (x : Ledger). x.challenges) e;
}

unkeyed-processed :
    (r : Receipt) (l : Ledger)
    → r.idempotency_key ≡ ""
    → (remember_receipt r l).processed ≡ l.processed
unfolding remember_receipt
unkeyed-processed r l e = rw e refl

SameFunds-receipt :
    (r : Receipt) (l l' : Ledger)
    → r.idempotency_key ≡ ""
    → SameFunds (remember_receipt r l) l'
    → SameFunds l l'
unfolding remember_receipt
SameFunds-receipt r l l' e h = record {
  sleeves = h.sleeves;
  rent_first = h.rent_first;
  movements = h.movements;
  processed = h.processed ∙ unkeyed-processed r l e;
  challenges = h.challenges;
}

module _ {S : Type 0} (store : LedgerStore S) where
  save_turn-Inert : (t : Turn) (w : World S) → Inert w (save_turn store t w).1
  unfolding save_turn
  save_turn-Inert t w = elim (Result-cases (store.save w.ledger w.store).0) [
    | inl (l, e) ↦
        rw (e, save_turn)
          (record {
            calls = refl;
            reversals = refl;
            journal = refl;
            funds = SameFunds-touch w.ledger l (store.save-ok w.ledger w.store e);
          })
    | inr (x, e) ↦
        rw (e, save_turn)
          (record {
            calls = refl;
            reversals = refl;
            journal = refl;
            funds = record {
              sleeves = refl;
              rent_first = refl;
              movements = refl;
              processed = refl;
              challenges = refl;
            };
          })
  ]

  refuse_tap-Inert :
      (r : Receipt) (w : World S) → r.idempotency_key ≡ "" → Inert w (refuse_tap store r w).1
  unfolding refuse_tap
  refuse_tap-Inert r w e =
      let h = save_turn-Inert _ (record w { ledger = remember_receipt r w.ledger }) in
      record {
        calls = h.calls;
        reversals = h.reversals;
        journal = h.journal;
        funds = SameFunds-receipt r w.ledger _ e h.funds;
      }

  pub closed_tap :
      (o : Orchestrator) (tap : Tap) (w : World S)
      → NotOpen o.env.at tap.confirm_id w.ledger
      → Inert w (handle_confirm store o tap w).1
  unfolding handle_confirm tap_receipt
  closed_tap o tap w h = elim (Option-cases (lookup tap.confirm_id w.ledger.challenges)) [
    | inl e ↦ rw (e, handle_confirm) (refuse_tap-Inert _ w refl)
    | inr (c, e) ↦ rw (e, handle_confirm) (rw (h c e) (refuse_tap-Inert _ w refl))
  ]

  saved_receipt-SameFunds :
      (r : Receipt) (l : Ledger) (s : S)
      → r.idempotency_key ≡ ""
      → SameFunds l (save_then store r (remember_receipt r l) s).ledger
  saved_receipt-SameFunds r l s e =
      let h = (save_then-Saved store r (remember_receipt r l) s).1 in
      SameFunds-receipt r l _ e (record {
        sleeves = h.sleeves;
        rent_first = h.rent;
        movements = h.movements;
        processed = h.processed;
        challenges = h.challenges;
      })

  decline-SameFunds :
      (now : ℕ) (id : String) (l : Ledger) (s : S)
      → NotOpen now id l
      → SameFunds l (decline_challenge store now id l s).ledger
  unfolding decline_challenge closing_receipt
  decline-SameFunds now id l s h = elim (Option-cases (lookup id l.challenges)) [
    | inl e ↦ rw (e, decline_challenge) (saved_receipt-SameFunds _ l s refl)
    | inr (c, e) ↦ rw (e, decline_challenge) (rw (h c e) (saved_receipt-SameFunds _ l s refl))
  ]

  -- A tap, a decline and an expiry of an id that names no open challenge move nothing: the tap
  -- reaches neither the rail nor the journal, all three keep the balances, the rent reserve, the
  -- movements, the processed keys and the challenges, and the expiry changes nothing at all.
  pub closed_challenge-Inert :
      (o : Orchestrator) (tap : Tap) (w : World S)
      → NotOpen o.env.at tap.confirm_id w.ledger
      → Inert w (handle_confirm store o tap w).1
        × SameFunds w.ledger
            (decline_challenge store o.env.at tap.confirm_id w.ledger w.store).ledger
        × (expire_challenge store o.env.at tap.confirm_id w.ledger w.store
            ≡ record { result = ok none; ledger = w.ledger; store = w.store })
  unfolding expire_challenge
  closed_challenge-Inert o tap w h = (
    closed_tap o tap w h,
    decline-SameFunds o.env.at tap.confirm_id w.ledger w.store h,
    elim (Option-cases (lookup tap.confirm_id w.ledger.challenges)) [
      | inl e ↦ rw (e, expire_challenge) refl
      | inr (c, e) ↦ rw (e, expire_challenge) (rw (h c e) refl)
    ],
  )
