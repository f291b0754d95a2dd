-- ===== src/Funding/Codes.antt =====
-- The code of a recipient: `submit_paj_otp` of miriam_agent/hands/funding_settle.py, and the order that
-- it lets through.
use miriam.Prelude.{
  ◌≡◌, refl, ◌∙◌, ap, arith, ◌⊎◌, inl, inr, Bool, true, String, List, [], ◌∷◌, ◌++◌, Bool-cases,
  str_eq, eq_iff,
}
use Prim.Native.String.{◌++◌ as join}
use miriam.Decimal.{Decimal, cents, money}
use miriam.Audit.{Reason}
use miriam.Ledger.{Ledger, Challenge, consumed, Result, touch, remember_receipt}
use miriam.Store.{LedgerStore}
use miriam.Settlement.{or_text, put_challenge}
use miriam.Host.{
  Reply, Answer, replied, listed, garbled, raised, cooling_down, Request, paj_verify_otp,
  funding_create_onramp, Desk, Site, Placed, ask_host, remembered, save_site,
}
use miriam.Host.Frames.{
  save_site-asked, save_site-touched, remembered-asked, if-asked, and_next-asked,
}
use miriam.Funding.{
  Onramp, onramp_key, verify_key, bound_onramp, meta_text, finish_onramp_order, order_with_code,
  after_verify, submit_paj_otp,
}
use miriam.FundingCalls.{verified_by, Written, fine, refused, status_of, verify_otp, create_onramp}

-- the order that a call of `create_onramp` places
abbrev pub order_of : Desk → String → Decimal → String → String → Request
order_of d kind amount key id =
    funding_create_onramp (d.words.lower (or_text kind "paj")) amount key id

module _ {S : Type 0} where
  pub create_onramp-asked :
      (d : Desk) (kind : String) (amount : Decimal) (b : Bool) (key id : String) (t : Site S)
      → ((create_onramp d kind amount b key id t).1.asked ≡ t.asked)
        ⊎ ((create_onramp d kind amount b key id t).1.asked
            ≡ t.asked ++ (order_of d kind amount key id ∷ []))
  unfolding create_onramp ask_host
  create_onramp-asked d kind amount b key id t = ground arith

  pub finish_onramp_order-asked :
      (d : Desk) (amount : Decimal) (q : Onramp) (w : Written) (t : Site S)
      → (finish_onramp_order d amount q w t).1.asked ≡ t.asked
  unfolding finish_onramp_order
  finish_onramp_order-asked d amount q (refused reasons) t = remembered-asked _ _ t
  finish_onramp_order-asked d amount q (fine raw) t =
      if-asked _ _ _ (remembered-asked _ _ t) (remembered-asked _ _ t)

module _ {S : Type 0} (store : LedgerStore S) (d : Desk) (c : Challenge) (otp : String) where
  abbrev code_request : Request
  code_request =
      paj_verify_otp (d.words.strip otp) (join (verify_key c.id) (join ":" otp))
        (or_text (meta_text "onramp_confirm_id" c) c.id)

  abbrev bound_request : Request
  bound_request =
      order_of d (bound_onramp c).provider c.amount (onramp_key (bound_onramp c).confirm_id)
        (bound_onramp c).confirm_id

  -- the code has the form of one, and the host has said that it holds
  abbrev CodeHolds : Site S → Type 0
  CodeHolds t =
      (d.words.is_code (d.words.strip otp) ≡ true)
      × (r : Reply) × (d.host t.asked code_request ≡ replied r)
      × (status_of d r ≡ "verified")

  -- what has been asked, by what came of the code
  abbrev Verifies : Site S → Written × Site S → Type 0
  Verifies t r =
      ((reasons : List Reason) × (r.0 ≡ refused reasons)
        × (r.1.ledger ≡ t.ledger)
        × ((r.1.asked ≡ t.asked) ⊎ (r.1.asked ≡ t.asked ++ (code_request ∷ []))))
      ⊎ ((raw : Reply) × (r.0 ≡ fine raw)
          × (r.1.ledger ≡ t.ledger)
          × (r.1.asked ≡ t.asked ++ (code_request ∷ []))
          × CodeHolds t)

  -- what is left of the site when the host has been asked about the code
  abbrev code_asked : Site S → Site S
  code_asked t = record t { asked = t.asked ++ (code_request ∷ []) }

  verified_by-Verifies :
      (a : Answer) (t : Site S)
      → d.words.is_code (d.words.strip otp) ≡ true
      → d.host t.asked code_request ≡ a
      → Verifies t (verified_by d a, code_asked t)
  verified_by-Verifies (replied r) t f e = elim (Bool-cases (str_eq (status_of d r) "verified")) [
    | inl g ↦ rw g (inr (r, refl, refl, refl, (f, r, e, (eq_iff (status_of d r) "verified").0 g)))
    | inr g ↦ rw g (inl (_, refl, refl, inr refl))
  ]
  verified_by-Verifies (listed _) t f e = inl (_, refl, refl, inr refl)
  verified_by-Verifies garbled t f e = inl (_, refl, refl, inr refl)
  verified_by-Verifies raised t f e = inl (_, refl, refl, inr refl)
  verified_by-Verifies (cooling_down _) t f e = inl (_, refl, refl, inr refl)

  verify_otp-Verifies :
      (t : Site S)
      → Verifies t (
          verify_otp d otp
            (join (verify_key c.id) (join ":" otp))
            (or_text (meta_text "onramp_confirm_id" c) c.id)
            t)
  unfolding verify_otp ask_host
  verify_otp-Verifies t = elim (Bool-cases (str_eq d.token "")) [
    | inl e ↦ rw e (inl (_, refl, refl, inl refl))
    | inr e ↦ rw e (elim (Bool-cases (d.words.is_code (d.words.strip otp))) [
      | inl f ↦ rw f (rw f at (verified_by-Verifies _ t f refl))
      | inr f ↦ rw f (inl (_, refl, refl, inl refl))
    ])
  ]

  order_with_code-asked :
      (t : Site S)
      → ((order_with_code store d c t).1.asked ≡ t.asked)
        ⊎ ((order_with_code store d c t).1.asked ≡ t.asked ++ (bound_request ∷ []))
  unfolding order_with_code
  order_with_code-asked t =
      let q = bound_onramp c in
      let t₁ = record t { ledger = put_challenge consumed c t.ledger } in
      let r = create_onramp d q.provider c.amount true (onramp_key q.confirm_id) q.confirm_id t₁ in
      let e : (order_with_code store d c t).1.asked ≡ r.1.asked =
        and_next-asked _ (save_site store)
          (finish_onramp_order-asked d (cents (money c.amount)) q r.0 r.1)
          (λ p t'. save_site-asked store p t') in
      elim (create_onramp-asked d q.provider c.amount true (onramp_key q.confirm_id) q.confirm_id
        t₁) [ inl f ↦ inl (e ∙ f) | inr f ↦ inr (e ∙ f) ]

  -- What a message with a code comes to at the host, and to the challenge for it: nothing beyond the
  -- question for the code, with the challenges as they were, or, where the code holds, at most the one
  -- order that the challenge binds.
  abbrev pub AsksWithCode : Site S → Result Placed × Site S → Type 0
  AsksWithCode t r =
      (((r.1.asked ≡ t.asked) ⊎ (r.1.asked ≡ t.asked ++ (code_request ∷ [])))
        × (r.1.ledger.challenges ≡ t.ledger.challenges))
      ⊎ (CodeHolds t
          × ((r.1.asked ≡ t.asked ++ (code_request ∷ []))
              ⊎ (r.1.asked ≡ (t.asked ++ (code_request ∷ [])) ++ (bound_request ∷ []))))

  after_verify-AsksWithCode :
      (t : Site S) (w : Written) (t' : Site S)
      → Verifies t (w, t')
      → AsksWithCode t (after_verify store d c w t')
  unfolding after_verify remember_receipt touch
  after_verify-AsksWithCode t w t' (inl (reasons, e, l, a)) =
      let same = ap (λ (x : Ledger). x.challenges) l in
      rw (e, after_verify)
        (inl (
          elim a [
            | inl f ↦ inl (save_site-asked store _ _ ∙ f)
            | inr f ↦ inr (save_site-asked store _ _ ∙ f)
          ],
          save_site-touched (λ x. x.challenges ≡ t.ledger.challenges) (λ x k. k) store _ _ same,
        ))
  after_verify-AsksWithCode t w t' (inr (raw, e, l, a, holds)) =
      rw (e, after_verify)
        (inr (
          holds,
          elim (order_with_code-asked t') [
            | inl f ↦ inl (f ∙ a)
            | inr f ↦ inr (f ∙ ap (λ (x : List Request). x ++ (bound_request ∷ [])) a)
          ],
        ))

  -- No order without the code. A message with a code asks the host at most whether the code holds, and
  -- leaves every challenge as it was, unless it has the form of a code and the host answers that it is
  -- verified; then it places at most one order, for the amount that the challenge stores, under the key
  -- and the id of the onramp that the challenge binds.
  pub submit_paj_otp-AsksWithCode : (t : Site S) → AsksWithCode t (submit_paj_otp store d c otp t)
  unfolding submit_paj_otp remembered remember_receipt
  submit_paj_otp-AsksWithCode t = elim (Bool-cases (str_eq d.token "")) [
    | inl e ↦ rw e (inl (inl refl, refl))
    | inr e ↦ rw e (after_verify-AsksWithCode t _ _ (verify_otp-Verifies t))
  ]
