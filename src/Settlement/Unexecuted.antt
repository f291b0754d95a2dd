-- ===== src/Settlement/Unexecuted.antt =====
-- A challenge that `_create_challenge` of miriam_agent/orchestrator.py stages for a move into a
-- sleeve, and the tap on it, which `_handle_confirm` of miriam_agent/hands/settlement.py settles.
use miriam.Prelude.{
  ◌≡◌, refl, ◌∙◌, ap, arith, ℕ, ◌+◌, ◌<◌, String, pos, ◌<ℤ◌, inl, inr, true, false, none, some, [],
  lookup, insert, lookup-insert_self, eq_iff, eq_refl, lt→ltb,
}
use miriam.Decimal.{money}
use miriam.Decimal.Rounding.{money-cents}
use miriam.Ledger.{Ledger, Challenge, is_open, ok, Result, touch}
use miriam.State.{ActionType, Decision, ProposedAction}
use miriam.Store.{LedgerStore}
use miriam.Store.Race.{Result-cases}
use miriam.TransferReceipts.{Done, save_then}
use miriam.Transfer.{World, type_text}
use miriam.Settlement.{
  Orchestrator, Tap, Turn, settled, vocabulary, action_type, leg_of, is_foreign, is_bound, or_text,
  execute_action, settle_challenge, settle_bound, confirm_open, handle_confirm,
}
use miriam.Settlement.Challenges.{staged, create_challenge, capped, amount_or_nought}

internal_move-action_type : action_type "internal_move" ≡ ok ActionType.no_action
unfolding action_type vocabulary lookup
internal_move-action_type = refl

internal_move-leg_of : leg_of "internal_move" ≡ none
unfolding leg_of
internal_move-leg_of = refl

module _ {S : Type 0} (store : LedgerStore S) where
  -- the world after the tap has executed nothing
  abbrev Unexecuted : String → World S → Result Turn × World S → Type 0
  Unexecuted id w r =
      (r.0 ≡ ok (settled none id []))
      × (r.1.store ≡ w.store)
      × (r.1.calls ≡ w.calls)
      × (r.1.journal ≡ w.journal)
      × (r.1.ledger.sleeves ≡ w.ledger.sleeves)

  module _ (o : Orchestrator) (tap : Tap) (c : Challenge) (w : World S) where
    internal_move-settle :
        c.action ≡ "internal_move"
        → is_bound c ≡ true
        → Unexecuted c.id w (settle_bound store o tap c w)
    unfolding settle_bound settle_challenge execute_action
    internal_move-settle e b =
        let t : action_type c.action ≡ ok ActionType.no_action =
          ap action_type e ∙ internal_move-action_type in
        rw (t, settle_bound) (rw b (refl, refl, refl, refl, refl))

    internal_move-confirm :
        lookup tap.confirm_id w.ledger.challenges ≡ some c
        → is_open c o.env.at ≡ true
        → is_foreign tap c w.ledger ≡ false
        → c.action ≡ "internal_move"
        → is_bound c ≡ true
        → Unexecuted c.id w (handle_confirm store o tap w)
    unfolding handle_confirm confirm_open
    internal_move-confirm found live own e b =
        let t : leg_of c.action ≡ none = ap leg_of e ∙ internal_move-leg_of in
        rw (found, handle_confirm)
          (rw live (rw own (rw (t, confirm_open) (internal_move-settle e b))))

  -- the world of the user whose challenge has been staged
  abbrev after_create : Done String S → World S → World S
  after_create d w = record w { ledger = d.ledger; store = d.store }

  module _ (now : ℕ) (d : Decision) (a : ProposedAction) (l : Ledger) where
    abbrev c₀ : Challenge
    c₀ = staged now l d a

    staged-is_foreign :
        (tap : Tap) (l' : Ledger)
        → tap.user_id ≡ l.user_id
        → l'.user_id ≡ l.user_id
        → is_foreign tap c₀ l' ≡ false
    unfolding is_foreign staged
    staged-is_foreign tap l' e e' =
        ground (
          arith,
          e,
          e',
          eq_refl l.user_id,
          eq_iff tap.user_id l.user_id,
          eq_iff l.user_id l'.user_id,
        )

    staged-is_bound :
        pos 0 <ℤ money (capped (amount_or_nought a.amount) d.suggested_amount) → is_bound c₀ ≡ true
    unfolding is_bound staged
    staged-is_bound h =
        let to = or_text a.counterparty a.sleeve in
        ground (
          arith,
          h,
          eq_refl to,
          money-cents (money (capped (amount_or_nought a.amount) d.suggested_amount)),
        )

    staged-is_open : (at : ℕ) → at < now + 1800 → is_open c₀ at ≡ true
    unfolding is_open staged
    staged-is_open at h = ground (arith, lt→ltb at (now + 1800) h)

    abbrev staged_ledger : Ledger
    staged_ledger = record l { challenges = insert c₀.id c₀ l.challenges }

    create_challenge-ok :
        (s : S) (id : String)
        → (create_challenge store now d a l s).result ≡ ok id
        → (id ≡ c₀.id)
          × (lookup id (create_challenge store now d a l s).ledger.challenges ≡ some c₀)
          × ((create_challenge store now d a l s).ledger.user_id ≡ l.user_id)
    unfolding create_challenge save_then staged touch
    create_challenge-ok s id h = elim (Result-cases (store.save staged_ledger s).0) [
      | inr (x, e) ↦ absurd (ground (arith, h, e))
      | inl (l', e) ↦
          let t = store.save-ok staged_ledger s e in
          (
            ground (arith, h, e),
            ground (
              arith,
              h,
              e,
              ap (λ (x : Ledger). x.challenges) t,
              lookup-insert_self c₀.id c₀ l.challenges,
            ),
            ground (arith, h, e, ap (λ (x : Ledger). x.user_id) t),
          )
    ]

    -- A move into a sleeve that needs a confirmation is never executed. A challenge for an
    -- `internal_move` of more than nought that has been staged and saved, tapped by its user within
    -- the thirty minutes: the tap returns no receipt, no balance, journal or rail call changes, and
    -- nothing is saved, so the store keeps the challenge as it was staged.
    pub staged_move-IsUnexecuted :
        (o : Orchestrator) (tap : Tap) (w : World S) (id : String)
        → a.type ≡ ActionType.internal_move
        → pos 0 <ℤ money (capped (amount_or_nought a.amount) d.suggested_amount)
        → tap.user_id ≡ l.user_id
        → o.env.at < now + 1800
        → (create_challenge store now d a l w.store).result ≡ ok id
        → tap.confirm_id ≡ id
        → let w' = after_create (create_challenge store now d a l w.store) w in
          Unexecuted id w' (handle_confirm store o tap w')
    unfolding staged
    staged_move-IsUnexecuted o tap w id t h u at made named =
        let (same, found, user) = create_challenge-ok w.store id made in
        let w' = after_create (create_challenge store now d a l w.store) w in
        rw same (
          internal_move-confirm o tap c₀ w' (rw named found) (staged-is_open o.env.at at)
            (staged-is_foreign tap w'.ledger u user) (ap type_text t) (staged-is_bound h))
