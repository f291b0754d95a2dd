-- ===== src/Funding.antt =====
-- miriam_agent/hands/funding_settle.py: buying crypto with naira, the code of the recipient, and the
-- staging of a cash-out. The spoken text is left out, and so is the envelope of the cash-out, which the
-- app posts and Hands does not.
pub mod Frames
pub mod Codes
pub mod Retaps
pub mod Orders
pub mod Lost
use miriam.Prelude.{
  ℕ, ◌+◌, ◌*◌, String, pos, leb_ℤ, Bool, true, false, ◌&&◌, ◌||◌, not, Option, none, some, List, [],
  ◌∷◌, ◌++◌, lookup, insert, get_or, str_eq, if◌then◌else◌, ℤ,
}
use Prim.Native.String.{◌++◌ as join}
use miriam.Decimal.{Decimal, money, cents}
use miriam.Audit.{
  Receipt, ReceiptStatus, executed, queued, rejected, Reason, bad_amount, no_go_token,
  rate_unavailable, paj_initiate_failed, onramp_failed, payin_account_missing, bad_rail,
  paj_verification_required, paj_verify_failed, bad_otp_format, app_only, reason_code,
}
use miriam.Ledger.{
  Ledger, Challenge, pending, consumed, Result, ok, err, remember_receipt, receipt_for,
}
use miriam.Store.{LedgerStore}
use miriam.Settlement.{or_text, put_challenge}
use miriam.Settlement.Challenges.{challenge_ttl_minutes}
use miriam.Host.{
  Reply, Answer, replied, garbled, raised, cooling_down, Request, get_crypto_quote,
  paj_initiate_session, paj_verify_otp, funding_create_onramp, Desk, Site, Card, paj_otp,
  onramp_order, offramp_envelope, Placed, tool_error, first_text, ask_host, host_receipt,
  remembered, save_site, and_next,
}
use miriam.FundingCalls.{
  Written, created, status_of, initiate_paj, verify_otp, create_onramp, fine, refused,
}

-- `"ONRAMP_FAILED" in reasons`
abbrev may_replay : List Reason → Bool
may_replay [] = false
may_replay (onramp_failed ∷ rs) = true
may_replay (_ ∷ rs) = may_replay rs

abbrev pub onramp_key : String → String
onramp_key id = join "onramp:" id

abbrev pub incomplete_key : String → String
incomplete_key id = join "onramp-incomplete:" id

abbrev pub initiate_key : String → String
initiate_key id = join "paj-initiate:" id

abbrev pub verify_key : String → String
verify_key id = join "paj-verify:" id

-- what an onramp is asked for: the amount, the symbol, and the ids of its decision and confirmation
pub record Onramp : Type 0 where
  pub amount : Decimal
  pub symbol : String
  pub provider : String
  pub decision_id : String
  pub confirm_id : String

-- `confirm_id or decision_id`
abbrev pub order_id : Onramp → String
order_id q = or_text q.confirm_id q.decision_id

abbrev pub onramp_receipt :
    Desk → Ledger → ReceiptStatus → String → Decimal → Onramp → String → List Reason → Receipt
onramp_receipt d l status action amount q key reasons =
    host_receipt d.env l status action (some amount) q.symbol "spendable" q.decision_id key reasons

-- `_finish_onramp_order`: the account to pay into makes the order payable
unfoldable pub finish_onramp_order :
    {S : Type 0} → Desk → Decimal → Onramp → Written → Site S → Result Placed × Site S
unfolding first_text
finish_onramp_order d amount q (refused reasons) t =
    remembered
      (onramp_receipt d t.ledger rejected "onramp_prepare" amount q
        (if may_replay reasons then incomplete_key (order_id q) else onramp_key (order_id q))
        reasons)
      none t
finish_onramp_order d amount q (fine raw) t =
    let account = d.words.strip (first_text d.words ("accountNumber" ∷ []) raw) in
    let bank = d.words.strip (first_text d.words ("bank" ∷ []) raw) in
    if str_eq account "" || str_eq bank ""
    then remembered
        (onramp_receipt d t.ledger rejected "onramp_prepare" amount q (incomplete_key (order_id q))
          (payin_account_missing ∷ []))
        none t
    else remembered
        (record (onramp_receipt d t.ledger executed "onramp_prepare" amount q
          (onramp_key (order_id q)) []) {
            rail_reference = first_text d.words ("orderId" ∷ "transactionId" ∷ []) raw;
            confirm_id = order_id q;
          })
        (some onramp_order) t

abbrev pub meta_text : String → Challenge → String
meta_text k c = get_or (lookup k c.meta) ""

-- the order that a challenge for a code binds
abbrev pub bound_onramp : Challenge → Onramp
bound_onramp c = record {
  amount = c.amount;
  symbol = c.counterparty;
  provider = or_text (meta_text "provider" c) "paj";
  decision_id = c.decision_id;
  confirm_id = or_text (meta_text "onramp_confirm_id" c) c.id;
}

abbrev pub otp_receipt : Desk → Challenge → List Reason → Ledger → Receipt
otp_receipt d c reasons l =
    host_receipt d.env l rejected "onramp_verify" (some c.amount) c.counterparty c.sleeve
      c.decision_id (verify_key c.id) reasons

-- the challenge for the code
unfoldable pub otp_challenge : Desk → Onramp → Reply → Ledger → Challenge
unfolding first_text
otp_challenge d q quote l =
    let fresh = join "otp_" d.suffix in
    let kept = d.words.strip (or_text (order_id q) fresh) in
    record {
      id = join "confirm_otp_" (join (or_text kept fresh) (join "_" d.suffix));
      user_id = l.user_id;
      action = "paj_otp";
      amount = cents (money q.amount);
      counterparty = q.symbol;
      destination = q.symbol;
      sleeve = "spendable";
      decision_id = q.decision_id;
      reasons = [];
      created_at = d.env.at;
      expires_at = d.env.at + challenge_ttl_minutes * 60;
      status = pending;
      meta =
          ("onramp_confirm_id", order_id q)
          ∷ ("provider", q.provider)
          ∷ ("rate", first_text d.words ("rate" ∷ []) quote)
          ∷ ("symbol", q.symbol)
          ∷ [];
    }

abbrev is_under_way : ReceiptStatus → Bool
is_under_way queued = true
is_under_way executed = true
is_under_way _ = false

-- `_reject` of `prepare_onramp`, under the key of the order
abbrev reject_onramp : {S : Type 0} → Desk → Onramp → List Reason → Site S → Result Placed × Site S
reject_onramp d q reasons t =
    remembered
      (onramp_receipt d t.ledger rejected "onramp_prepare" (cents (money q.amount)) q
        (onramp_key (order_id q)) reasons)
      none t

abbrev pub replayed : {S : Type 0} → Receipt → Site S → Result Placed × Site S
replayed r t = (ok (record { receipt = r; card = none }), t)

module _ {S : Type 0} (store : LedgerStore S) where
  -- the code is awaited: its challenge, a queued receipt, and a save
  unfoldable pub await_code : Desk → Onramp → Reply → Site S → Result Placed × Site S
  await_code d q quote t =
      let c = otp_challenge d q quote t.ledger in
      let r =
        record (onramp_receipt d t.ledger queued "onramp_initiate" (cents (money q.amount)) q
          (initiate_key (order_id q)) []) { confirm_id = q.confirm_id } in
      let l = record t.ledger { challenges = insert c.id c t.ledger.challenges } in
      save_site store (record { receipt = r; card = some (paj_otp c.id) })
        (record t { ledger = remember_receipt r l })

  -- after the initiation: a recipient that is verified already gets the order at once
  unfoldable pub after_initiate : Desk → Onramp → Reply → Written → Site S → Result Placed × Site S
  unfolding status_of
  after_initiate d q quote (refused _) t = await_code d q quote t
  after_initiate d q quote (fine raw) t =
      if str_eq (status_of d raw) "already_verified"
      then (let (w, t') =
            create_onramp d q.provider (cents (money q.amount)) true (onramp_key (order_id q))
              q.confirm_id t in
          finish_onramp_order d (cents (money q.amount)) q w t')
      else await_code d q quote t

  -- with a quote in hand
  unfoldable pub place_onramp : Desk → Onramp → Reply → Site S → Result Placed × Site S
  place_onramp d q quote t =
      if str_eq (d.words.lower q.provider) "ramp"
      then (let (w, t') =
            create_onramp d "ramp" (cents (money q.amount)) true (onramp_key (order_id q))
              q.confirm_id t in
          finish_onramp_order d (cents (money q.amount)) q w t')
      else (let (w, t') = initiate_paj d (initiate_key (order_id q)) q.confirm_id t in
          after_initiate d q quote w t')

  unfoldable pub after_quote : Desk → Onramp → Answer → Site S → Result Placed × Site S
  unfolding first_text
  after_quote d q (replied quote) t =
      if str_eq (first_text d.words (tool_error ∷ []) quote) ""
      then place_onramp d q quote t
      else reject_onramp d q (rate_unavailable ∷ []) t
  after_quote d q _ t = reject_onramp d q (rate_unavailable ∷ []) t

  unfoldable pub quote_onramp : Desk → Onramp → Site S → Result Placed × Site S
  unfolding ask_host
  quote_onramp d q t =
      if str_eq d.token ""
      then reject_onramp d q (no_go_token ∷ []) t
      else (let (a, t') = ask_host d (get_crypto_quote (cents (money q.amount))) t in
          after_quote d q a t')

  unfoldable pub after_prior : Desk → Onramp → Option Receipt → Site S → Result Placed × Site S
  after_prior d q none t = quote_onramp d q t
  after_prior d q (some r) t = if is_under_way r.status then replayed r t else quote_onramp d q t

  -- a double tap is answered with the receipt of the order, or of the initiation
  unfoldable pub after_order : Desk → Onramp → Option Receipt → Site S → Result Placed × Site S
  after_order d q (some r) t = replayed r t
  after_order d q none t =
      after_prior d q (receipt_for (initiate_key (order_id q)) d.env.at t.ledger) t

  -- `prepare_onramp`
  unfoldable pub prepare_onramp : Desk → Onramp → Site S → Result Placed × Site S
  prepare_onramp d q t =
      if leb_ℤ (money q.amount) (pos 0)
      then remembered
          (host_receipt d.env t.ledger rejected "onramp_prepare" none q.symbol "spendable"
            q.decision_id (onramp_key (order_id q)) (bad_amount ∷ []))
          none t
      else after_order d q (receipt_for (onramp_key (order_id q)) d.env.at t.ledger) t

  -- the code holds: the challenge is consumed and the order is created
  unfoldable pub order_with_code : Desk → Challenge → Site S → Result Placed × Site S
  order_with_code d c t =
      let q = bound_onramp c in
      let t₁ = record t { ledger = put_challenge consumed c t.ledger } in
      let (w, t₂) =
        create_onramp d q.provider c.amount true (onramp_key q.confirm_id) q.confirm_id t₁ in
      and_next (finish_onramp_order d (cents (money c.amount)) q w t₂) (save_site store)

  unfoldable pub after_verify : Desk → Challenge → Written → Site S → Result Placed × Site S
  after_verify d c (fine _) t = order_with_code d c t
  after_verify d c (refused reasons) t =
      let r = otp_receipt d c reasons t.ledger in
      save_site store (record { receipt = r; card = none })
        (record t { ledger = remember_receipt r t.ledger })

  -- `submit_paj_otp`
  unfoldable pub submit_paj_otp : Desk → Challenge → String → Site S → Result Placed × Site S
  submit_paj_otp d c otp t =
      if str_eq d.token ""
      then remembered (otp_receipt d c (no_go_token ∷ []) t.ledger) none t
      else (let (w, t') =
            verify_otp d otp (join (verify_key c.id) (join ":" otp))
              (or_text (meta_text "onramp_confirm_id" c) c.id) t in
          after_verify d c w t')

  -- `stage_offramp`
  unfoldable pub stage_offramp :
      Desk → Decimal → String → String → String → Site S → Result Placed × Site S
  stage_offramp d amount counterparty decision_id confirm_id t =
      let r =
        host_receipt d.env t.ledger rejected "offramp_stage" (some (cents (money amount)))
          counterparty "spendable" decision_id (join "offramp:" (or_text confirm_id decision_id))
          (app_only ∷ []) in
      save_site store (record { receipt = r; card = some offramp_envelope })
        (record t { ledger = remember_receipt r t.ledger })
