-- ===== src/Limits/Trimming.antt =====
-- The receipts that miriam_agent/hands/ledger.py trims, and the usage that
-- miriam_agent/hands/limits.py sums over them.
use miriam.Prelude.{
  ◌≡◌, ◌≤◌, ◌+◌, ◌-◌, ℕ, zero, suc, pos, int_laws, refl, arith, false, List, [], ◌∷◌, ◌++◌, length,
  drop, keep_last, length-append, length-drop, length-keep_last, drop-append, drop-drop,
}
use mathlib.Core.Path.{subst}
use miriam.Audit.{Receipt}
use miriam.Ledger.{Ledger, remember_receipt, receipt_retention}
use miriam.Limits.{is_settled, sum_settled, settled_outbound_since}

-- None of the receipts is a settled send at or after an instant: rejections, parked moves, debits.
abbrev pub NoneSettled : ℕ → List Receipt → Type 0
NoneSettled since [] = Unit {0}
NoneSettled since (r ∷ rs) = (is_settled since r ≡ false) × NoneSettled since rs

-- Receipts remembered one after another.
pub remember_all : List Receipt → Ledger → Ledger
remember_all [] l = l
remember_all (r ∷ rs) l = remember_all rs (remember_receipt r l)

NoneSettled-drop :
    (since n : ℕ) (rs : List Receipt) → NoneSettled since rs → NoneSettled since (drop n rs)
NoneSettled-drop since zero rs h = h
NoneSettled-drop since (suc n) [] h = h
NoneSettled-drop since (suc n) (r ∷ rs) h = NoneSettled-drop since n rs h.1

NoneSettled-append :
    (since : ℕ) (rs : List Receipt) (r : Receipt)
    → NoneSettled since rs
    → is_settled since r ≡ false
    → NoneSettled since (rs ++ (r ∷ []))
NoneSettled-append since [] r h e = (e, tt)
NoneSettled-append since (x ∷ rs) r h e = (h.0, NoneSettled-append since rs r h.1 e)

sum_settled-NoneSettled :
    (since : ℕ) (rs : List Receipt) → NoneSettled since rs → sum_settled since rs ≡ pos 0
unfolding sum_settled
sum_settled-NoneSettled since [] h = refl
sum_settled-NoneSettled since (r ∷ rs) h =
    rw h.0 (grind (int_laws, sum_settled-NoneSettled since rs h.1))

-- From the index `d` on nothing is settled, and that is at least the last `k` receipts.
record Tail (since d k : ℕ) (rs : List Receipt) : Type 0 where
  clear : NoneSettled since (drop d rs)
  early : d ≤ length rs - k
  inside : d ≤ length rs

Tail-remember :
    (since d k : ℕ) (r : Receipt) (l : Ledger)
    → Tail since d k l.receipts
    → is_settled since r ≡ false
    → (d' : ℕ) × Tail since d' (suc k) (remember_receipt r l).receipts
unfolding remember_receipt keep_last
Tail-remember since d k r l t e =
    let all = l.receipts ++ (r ∷ []) in
    let cut = length all - receipt_retention in
    let len = length-append l.receipts (r ∷ []) in
    let kept = length-drop cut all in
    let tail : NoneSettled since (drop d all) =
      rw (drop-append d l.receipts (r ∷ []) t.inside)
        (NoneSettled-append since (drop d l.receipts) r t.clear e) in
    let rest = NoneSettled-drop since (cut - d) (drop d all) tail in
    let same : drop (cut - d) (drop d all) ≡ drop (d - cut) (drop cut all) =
      let n : d + (cut - d) ≡ cut + (d - cut) = omega arith in
      rw (drop-drop (cut - d) d all, drop-drop (d - cut) cut all) (rw n) in
    (
      d - cut,
      record {
        clear = subst (NoneSettled since) same rest;
        early = omega (arith, len, kept);
        inside = omega (arith, len, kept);
      },
    )

Tail-remember_all :
    (since d k : ℕ) (rs : List Receipt) (l : Ledger)
    → Tail since d k l.receipts
    → NoneSettled since rs
    → (d' : ℕ) × Tail since d' (k + length rs) (remember_all rs l).receipts
unfolding remember_all
Tail-remember_all since d k [] l t h = let e : k + 0 ≡ k = omega arith in (d, rw e t)
Tail-remember_all since d k (r ∷ rs) l t h =
    let (d', t') = Tail-remember since d k r l t h.0 in
    let (d'', t'') = Tail-remember_all since d' (suc k) rs (remember_receipt r l) t' h.1 in
    let e : suc k + length rs ≡ k + length (r ∷ rs) = omega arith in (d'', rw e at t'')

length-remember_all :
    (rs : List Receipt) (l : Ledger)
    → length l.receipts ≤ receipt_retention
    → length (remember_all rs l).receipts ≤ receipt_retention
unfolding remember_all remember_receipt
length-remember_all [] l h = h
length-remember_all (r ∷ rs) l h =
    length-remember_all rs (remember_receipt r l)
      (length-keep_last receipt_retention (l.receipts ++ (r ∷ [])))

drop-length : (rs : List Receipt) → drop (length rs) rs ≡ []
drop-length [] = refl
drop-length (r ∷ rs) = drop-length rs

-- On a ledger with at most 500 receipts, once 500 or more are remembered that are not settled
-- sends at or after an instant, such as rejections, nothing that was sent before counts any more
-- towards a cap since that instant.
settled_outbound_since-trimmed :
    (since : ℕ) (rs : List Receipt) (l : Ledger)
    → length l.receipts ≤ receipt_retention
    → NoneSettled since rs
    → receipt_retention ≤ length rs
    → settled_outbound_since (remember_all rs l) since ≡ pos 0
unfolding settled_outbound_since
settled_outbound_since-trimmed since rs l fits h many =
    let start : Tail since (length l.receipts) 0 l.receipts = record {
      clear = rw (drop-length l.receipts) tt;
      early = omega arith;
      inside = omega arith;
    } in
    let (d, t) = Tail-remember_all since (length l.receipts) 0 rs l start h in
    let e : d ≡ 0 = omega (arith, t.early, length-remember_all rs l fits) in
    sum_settled-NoneSettled since (remember_all rs l).receipts
      (subst (λ n. NoneSettled since (drop n (remember_all rs l).receipts)) e t.clear)
