-- ===== src/Funding/Lost.antt =====
-- An onramp whose order is lost: `prepare_onramp` and `_finish_onramp_order` of
-- miriam_agent/hands/funding_settle.py.
use miriam.Prelude.{
  ◌≡◌, ◌≢◌, refl, sym, ◌∙◌, ap, arith, true, false, String, none, [], ◌∷◌, ◌++◌, str_eq, eq_iff,
  lookup, lookup-insert, leb_ℤ, pos, set_default,
}
use Prim.Native.String.{len, ◌++◌ as join}
use text.Mathlib.TextPositions.{len-append}
use miriam.Decimal.{cents, money}
use miriam.Audit.{Receipt}
use miriam.Ledger.{Ledger, Result, ok, receipt_for, remember_receipt}
use miriam.Store.{LedgerStore}
use miriam.Settlement.Challenges.{may_reopen, has_retriable, is_retriable}
use miriam.Host.{
  Reply, replied, raised, Request, get_crypto_quote, funding_create_onramp, Desk, Site, Placed,
  tool_error, first_text, ask_host, host_receipt, remembered,
}
use miriam.Funding.{
  Onramp, onramp_key, incomplete_key, initiate_key, order_id, finish_onramp_order, place_onramp,
  after_quote, quote_onramp, after_prior, after_order, prepare_onramp,
}
use miriam.FundingCalls.{create_onramp, created}

-- Nothing has been processed under the two keys of the onramp.
abbrev pub Unused : Onramp → Ledger → Type 0
Unused q l =
    (lookup (onramp_key (order_id q)) l.processed ≡ none)
    × (lookup (initiate_key (order_id q)) l.processed ≡ none)

abbrev pub quote_of : Onramp → Request
quote_of q = get_crypto_quote (cents (money q.amount))

-- the order at the rail "ramp"
abbrev pub ramp_order : Onramp → Request
ramp_order q =
    funding_create_onramp "ramp" (cents (money q.amount)) (onramp_key (order_id q)) q.confirm_id

-- The onramp goes to the rail "ramp", there is a token, and the host quotes.
abbrev pub Quotes : {S : Type 0} → Desk → Onramp → Site S → Type 0
Quotes d q t =
    (d.words.lower q.provider ≡ "ramp")
    × (d.words.lower "ramp" ≡ "ramp")
    × (str_eq d.token "" ≡ false)
    × (quote : Reply) × (d.host t.asked (quote_of q) ≡ replied quote)
    × (first_text d.words (tool_error ∷ []) quote ≡ "")

-- The call that places the order raises.
abbrev pub LosesReply : {S : Type 0} → Desk → Onramp → Site S → Type 0
LosesReply d q t = d.host (t.asked ++ (quote_of q ∷ [])) (ramp_order q) ≡ raised

module _ {S : Type 0} (store : LedgerStore S) where
  abbrev quoted : Onramp → Site S → Site S
  quoted q t = record t { asked = t.asked ++ (quote_of q ∷ []) }

  abbrev pub ordered_at : Onramp → Site S → Site S
  ordered_at q t = record t { asked = (t.asked ++ (quote_of q ∷ [])) ++ (ramp_order q ∷ []) }

  receipt_for-Unused :
      (key : String) (d : Desk) (l : Ledger)
      → lookup key l.processed ≡ none
      → receipt_for key d.env.at l ≡ none
  unfolding receipt_for
  receipt_for-Unused key d l h = ground (arith, h)

  create_onramp-Sends :
      (d : Desk) (q : Onramp) (t : Site S)
      → leb_ℤ (money q.amount) (pos 0) ≡ false
      → d.words.lower "ramp" ≡ "ramp"
      → str_eq d.token "" ≡ false
      → create_onramp d "ramp"
          (cents (money q.amount))
          true
          (onramp_key (order_id q))
          q.confirm_id
          t
        ≡ (
          created (d.host t.asked (ramp_order q)),
          record t { asked = t.asked ++ (ramp_order q ∷ []) },
        )
  unfolding create_onramp ask_host
  create_onramp-Sends d q t m low token = rw (low, token, m) refl

  pub prepare_onramp-Places :
      (d : Desk) (q : Onramp) (t : Site S)
      → leb_ℤ (money q.amount) (pos 0) ≡ false
      → Unused q t.ledger
      → Quotes d q t
      → prepare_onramp store d q t
        ≡ finish_onramp_order d
            (cents (money q.amount))
            q
            (created (d.host (quoted q t).asked (ramp_order q)))
            (ordered_at q t)
  unfolding prepare_onramp quote_onramp after_order after_prior ask_host after_quote place_onramp
  prepare_onramp-Places d q t m (o, i) (rail, low, token, quote, e, f) = rw m (
      rw (receipt_for-Unused (onramp_key (order_id q)) d t.ledger o) (
        rw (receipt_for-Unused (initiate_key (order_id q)) d t.ledger i) (
          rw token
            (rw e (rw f (rw rail (rw (create_onramp-Sends d q (quoted q t) m low token) refl)))))))

-- A key with a prefix of another length is another key.
prefix-ne : (a b id : String) → len a ≢ len b → join a id ≢ join b id
prefix-ne a b id h e =
    let same : len (join a id) ≡ len (join b id) = ap len e in
    h (omega (arith, len-append a id, len-append b id, same))

lookup-remember_receipt :
    (key : String) (r : Receipt) (l : Ledger)
    → r.idempotency_key ≢ key
    → lookup key l.processed ≡ none
    → lookup key (remember_receipt r l).processed ≡ none
unfolding remember_receipt set_default
lookup-remember_receipt key r l other h =
    ground
      (arith, h, eq_iff r.idempotency_key key, lookup-insert r.idempotency_key key r.id l.processed)

Unused-remember_receipt :
    (q : Onramp) (r : Receipt) (l : Ledger)
    → r.idempotency_key ≡ incomplete_key (order_id q)
    → Unused q l
    → Unused q (remember_receipt r l)
Unused-remember_receipt q r l e (o, i) = (
  lookup-remember_receipt (onramp_key (order_id q)) r l
      (λ f.
        prefix-ne "onramp-incomplete:" "onramp:" (order_id q) (λ x. absurd (omega (arith, x)))
          (sym e ∙ f))
      o,
  lookup-remember_receipt (initiate_key (order_id q)) r l
      (λ f.
        prefix-ne "onramp-incomplete:" "paj-initiate:" (order_id q) (λ x. absurd (omega (arith, x)))
          (sym e ∙ f))
      i,
)

module _ {S : Type 0} where
  -- the approval may be reopened, and the keys stay unused
  abbrev pub Reopens : Onramp → Result Placed × Site S → Type 0
  Reopens q r = (p : Placed) × (r.0 ≡ ok p) × (may_reopen p.receipt ≡ true) × Unused q r.1.ledger

  pub lost-Reopens :
      (d : Desk) (q : Onramp) (t : Site S)
      → Unused q t.ledger
      → Reopens q (finish_onramp_order d (cents (money q.amount)) q (created raised) t)
  unfolding finish_onramp_order remembered host_receipt may_reopen has_retriable is_retriable
  lost-Reopens d q t u = (_, refl, refl, Unused-remember_receipt q _ t.ledger refl u)
