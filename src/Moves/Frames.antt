-- ===== src/Moves/Frames.antt =====
-- The challenges and the user of a ledger that `move_between_sleeves` of
-- miriam_agent/hands/transfer.py returns or saves.
use miriam.Prelude.{◌≡◌, refl, ◌∙◌, arith, String, ℤ, inl, inr, Option-cases, List-cases}
use miriam.Decimal.{Decimal, money, cents}
use miriam.Audit.{Receipt, Trigger}
use miriam.Ledger.{Ledger, move_internal, record_movement, remember_receipt, receipt_for}
use miriam.Ledger.Frames.{move_internal-challenges, move_internal-user}
use miriam.Limits.{Policy}
use miriam.Store.{LedgerStore}
use miriam.Store.Race.{Result-cases}
use miriam.TransferReceipts.{Env}
use miriam.TransferReceipts.Saving.{Holds, save_then-Holds}
use miriam.Moves.{move_reasons, release_rent, finish, move_now, move_key, move_between_sleeves}

release_rent-challenges :
    (f t : String) (amount : ℤ) (l : Ledger) → (release_rent f t amount l).challenges ≡ l.challenges
unfolding release_rent
release_rent-challenges f t amount l = ground arith

release_rent-user :
    (f t : String) (amount : ℤ) (l : Ledger) → (release_rent f t amount l).user_id ≡ l.user_id
unfolding release_rent
release_rent-user f t amount l = ground arith

module _ {S : Type 0} (store : LedgerStore S) where
  finish-Holds :
      (env : Env) (r : Receipt) (d : String) (t : Trigger) (l₀ l : Ledger) (s : S)
      → l.user_id ≡ l₀.user_id
      → l.challenges ≡ l₀.challenges
      → Holds store l₀ s (finish store env r d t l s).store
  unfolding finish remember_receipt
  finish-Holds env r d t l₀ l s u c = save_then-Holds store _ l₀ (remember_receipt r l) s u c

  module _ (env : Env) (p : Policy) (f t : String) where
    move_now-Holds :
        (amount : ℤ) (action decision_id key : String) (l : Ledger) (s : S)
        → Holds store l s (move_now store env p f t amount action decision_id key l s).store
    unfolding move_now record_movement
    move_now-Holds amount action decision_id key l s =
        elim (List-cases (move_reasons p f amount l)) [
          | inr (x, xs, e) ↦ rw (e, move_now) (finish-Holds env _ _ _ l l s refl refl)
          | inl e ↦ elim (Result-cases (move_internal f t (cents amount) l).0) [
            | inr (x, g) ↦ rw (e, move_now) (rw (g, move_now) (inl refl))
            | inl (u, g) ↦
                rw (e, move_now)
                  (rw (g, move_now)
                    (finish-Holds env _ _ _ l _ s
                      (release_rent-user f t amount (move_internal f t (cents amount) l).1
                        ∙ move_internal-user f t (cents amount) l)
                      (release_rent-challenges f t amount (move_internal f t (cents amount) l).1
                        ∙ move_internal-challenges f t (cents amount) l)))
          ]
        ]

    -- After a move the store holds what it held, or a ledger of this user with these challenges.
    pub move_between_sleeves-Holds :
        (amount : Decimal) (action decision_id : String) (l : Ledger) (s : S)
        → Holds store l s (move_between_sleeves store env p f t amount action decision_id l s).store
    unfolding move_between_sleeves
    move_between_sleeves-Holds amount action decision_id l s =
        let key = move_key env action decision_id (money amount) in
        elim (Option-cases (receipt_for key env.at l)) [
          | inr (r, e) ↦ rw (e, move_between_sleeves) (inl refl)
          | inl e ↦
              rw (e, move_between_sleeves)
                (move_now-Holds (money amount) action decision_id key l s)
        ]
