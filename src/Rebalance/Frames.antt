-- ===== src/Rebalance/Frames.antt =====
-- What miriam_agent/hands/rebalance.py leaves alone.
use miriam.Prelude.{String, Option, none, some}
use miriam.Audit.{Receipt}
use miriam.Ledger.{Ledger}
use miriam.Store.{LedgerStore}
use miriam.Host.{
  Reply, Answer, replied, listed, garbled, raised, cooling_down, Request, Desk, Site, Card,
  ask_host,
}
use miriam.Host.Frames.{Leaves, IsStable, if-Leaves, remembered-Leaves, save_site-Leaves}
use miriam.Rebalance.{
  place, claim_call, after_rebalance, rebalance_unless, call_unless, prepare_rebalance,
  after_pause_resume, prepare_pause_resume,
}

module _ {S : Type 0} (P : Ledger → Type 0) (v : IsStable P) where
  module _ (store : LedgerStore S) where
    place-Leaves :
        (r : Receipt) (card : Card) (t : Site S) → P t.ledger → Leaves P (place store r card t)
    unfolding place
    place-Leaves r card t h = save_site-Leaves P v store _ _ (v.noted _ _ h)

    after_rebalance-Leaves :
        (d : Desk) (s : String) (a : Answer) (t : Site S)
        → P t.ledger
        → Leaves P (after_rebalance store d s a t)
    unfolding after_rebalance
    after_rebalance-Leaves d s (cooling_down w) t h = place-Leaves _ _ t h
    after_rebalance-Leaves d s raised t h = remembered-Leaves P v _ _ t h
    after_rebalance-Leaves d s garbled t h = remembered-Leaves P v _ _ t h
    after_rebalance-Leaves d s (listed _) t h = remembered-Leaves P v _ _ t h
    after_rebalance-Leaves d s (replied r) t h =
        if-Leaves P _ _ _ (remembered-Leaves P v _ _ t h) (place-Leaves _ _ t h)

    rebalance_unless-Leaves :
        (d : Desk) (s : String) (r : Option Receipt) (t : Site S)
        → P t.ledger
        → Leaves P (rebalance_unless store d s r t)
    unfolding rebalance_unless ask_host
    rebalance_unless-Leaves d s (some r) t h = h
    rebalance_unless-Leaves d s none t h = after_rebalance-Leaves d s _ _ h

    pub prepare_rebalance-Leaves :
        (d : Desk) (s : String) (t : Site S) → P t.ledger → Leaves P (prepare_rebalance store d s t)
    unfolding prepare_rebalance
    prepare_rebalance-Leaves d s t h =
        if-Leaves P _ _ _ (remembered-Leaves P v _ _ t h) (rebalance_unless-Leaves d s _ t h)

    claim_call-Leaves :
        (d : Desk) (action s : String) (r : Reply) (t : Site S)
        → P t.ledger
        → Leaves P (claim_call store d action s r t)
    unfolding claim_call
    claim_call-Leaves d action s r t h =
        if-Leaves P _ _ _ (place-Leaves _ _ t h) (remembered-Leaves P v _ _ t h)

    after_pause_resume-Leaves :
        (d : Desk) (action s : String) (a : Answer) (t : Site S)
        → P t.ledger
        → Leaves P (after_pause_resume store d action s a t)
    unfolding after_pause_resume
    after_pause_resume-Leaves d action s (cooling_down w) t h = remembered-Leaves P v _ _ t h
    after_pause_resume-Leaves d action s raised t h = remembered-Leaves P v _ _ t h
    after_pause_resume-Leaves d action s garbled t h = remembered-Leaves P v _ _ t h
    after_pause_resume-Leaves d action s (listed _) t h = remembered-Leaves P v _ _ t h
    after_pause_resume-Leaves d action s (replied r) t h =
        if-Leaves P _ _ _ (remembered-Leaves P v _ _ t h) (claim_call-Leaves d action s r t h)

    call_unless-Leaves :
        (d : Desk) (action : String) (q : Request) (s : String) (r : Option Receipt) (t : Site S)
        → P t.ledger
        → Leaves P (call_unless store d action q s r t)
    unfolding call_unless ask_host
    call_unless-Leaves d action q s (some r) t h = h
    call_unless-Leaves d action q s none t h = after_pause_resume-Leaves d action s _ _ h

    pub prepare_pause_resume-Leaves :
        (d : Desk) (action : String) (q : Request) (s : String) (t : Site S)
        → P t.ledger
        → Leaves P (prepare_pause_resume store d action q s t)
    unfolding prepare_pause_resume
    prepare_pause_resume-Leaves d action q s t h =
        if-Leaves P _ _ _ (remembered-Leaves P v _ _ t h) (call_unless-Leaves d action q s _ t h)
