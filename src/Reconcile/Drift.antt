-- ===== src/Reconcile/Drift.antt =====
-- `reconcile` of miriam_agent/hands/reconcile.py against the facts that it compares.
use miriam.Prelude.{
  ◌≡◌, ◌≢◌, ◌↔◌, refl, sym, ◌∙◌, String, Bool, true, false, not, Option, none, some, List, [], ◌∷◌,
  Dict, lookup, set_default, is_some, lookup-insert, str_eq, eq_iff, eq_refl, ◌&&◌, if◌then◌else◌,
  arith, Bool-cases, Option-cases, inl, inr, All, append-nil_iff, lookup-nil, HasUniqueKeys,
  insert-HasUniqueKeys,
}
use miriam.Audit.{Receipt, ReceiptStatus, executed, parked, queued, noop, rejected}
use miriam.Reconcile.{
  receipt_no_journal, lacks_receipt, lacks_key, lacks_reference, JournalRow, index_receipts,
  contains, is_live, found, row_findings, check_rows, check_receipts, has_row, is_executed,
  reconcile,
}

-- the first receipt of a key
pub first_receipt : String → List Receipt → Option Receipt
first_receipt key [] = none
first_receipt key (r ∷ rs) = if str_eq r.idempotency_key key then some r else first_receipt key rs

-- What the journal's row says is borne out by the ledger and by the rail, where the rail answered.
pub record Agrees (receipts : List Receipt) (processed : Dict String) (refs : Option (List String))
    (row : JournalRow) : Type 0 where
  pub dispatched :
      row.status ≡ "dispatched" → is_some (first_receipt row.idempotency_key receipts) ≡ true
  pub confirmed : row.status ≡ "confirmed" → is_some (lookup row.idempotency_key processed) ≡ true
  pub referenced :
      {answered : List String}
      → refs ≡ some answered
      → row.rail_reference ≢ ""
      → is_live row.status ≡ true
      → contains row.rail_reference answered ≡ true

abbrev pub AgreesIfKeyed : List Receipt → Dict String → Option (List String) → JournalRow → Type 0
AgreesIfKeyed receipts processed refs row =
    row.idempotency_key ≢ "" → Agrees receipts processed refs row

-- Every key whose first receipt is executed has a row in the journal.
abbrev pub Journaled : List Receipt → List JournalRow → Type 0
Journaled receipts rows =
    (key : String) (r : Receipt)
    → key ≢ ""
    → first_receipt key receipts ≡ some r
    → r.status ≡ executed
    → has_row key rows ≡ true

is_executed-executed : (x : ReceiptStatus) → is_executed x ≡ true → x ≡ executed
is_executed-executed executed h = refl
is_executed-executed parked h = absurd (ground arith)
is_executed-executed queued h = absurd (ground arith)
is_executed-executed noop h = absurd (ground arith)
is_executed-executed rejected h = absurd (ground arith)

lookup-index_receipts :
    (key : String) (rs : List Receipt) (d : Dict Receipt)
    → key ≢ ""
    → lookup key (index_receipts rs d)
      ≡ (elim (lookup key d) [ some r ↦ some r | none ↦ first_receipt key rs ])
unfolding index_receipts first_receipt set_default
lookup-index_receipts key [] d named = ground arith
lookup-index_receipts key (r ∷ rs) d named = elim (Bool-cases (str_eq r.idempotency_key "")) [
  | inl e ↦ ground (
    arith,
    lookup-index_receipts key rs d named,
    eq_iff r.idempotency_key "",
    eq_iff r.idempotency_key key,
  )
  | inr e ↦ ground (
    arith,
    lookup-index_receipts key rs (set_default r.idempotency_key r d) named,
    lookup-insert r.idempotency_key key r d,
    eq_iff r.idempotency_key key,
  )
]

index_receipts-none :
    (rs : List Receipt) (d : Dict Receipt)
    → lookup "" d ≡ none
    → lookup "" (index_receipts rs d) ≡ none
unfolding index_receipts set_default
index_receipts-none [] d h = h
index_receipts-none (r ∷ rs) d h = elim (Bool-cases (str_eq r.idempotency_key "")) [
  | inl e ↦ rw e (index_receipts-none rs d h)
  | inr e ↦ rw e (
      index_receipts-none rs (set_default r.idempotency_key r d)
        (ground (arith, h, e, lookup-insert r.idempotency_key "" r d)))
]

module _ (receipts : List Receipt) (by_key : Dict Receipt) (processed : Dict String)
    (refs : Option (List String)) where
  row_findings-nil_iff :
      (row : JournalRow)
      → (row_findings by_key processed refs row ≡ []) ↔ (
          (lacks_receipt by_key row ≡ false)
          × (lacks_key processed row ≡ false)
          × (lacks_reference refs row ≡ false))
  unfolding row_findings
  row_findings-nil_iff row = ((λ e. (ground arith, ground arith, ground arith)), λ e. ground arith)

  row_findings-Agrees :
      (row : JournalRow)
      → lookup row.idempotency_key by_key ≡ first_receipt row.idempotency_key receipts
      → (row_findings by_key processed refs row ≡ []) ↔ Agrees receipts processed refs row
  row_findings-Agrees row same = (
    (λ e.
        let (a, b, c) = (row_findings-nil_iff row).0 e in
        record {
          dispatched = λ s. ground (arith, a, same, eq_iff row.status "dispatched");
          confirmed = λ s. ground (arith, b, eq_iff row.status "confirmed");
          referenced = λ answered named live.
              ground (arith, c, answered, live, eq_iff row.rail_reference "");
        }),
    λ v. (row_findings-nil_iff row).1 (
      ground (arith, v.dispatched, same, eq_iff row.status "dispatched"),
      ground (arith, v.confirmed, eq_iff row.status "confirmed"),
      elim (Option-cases refs) [
        | inl e ↦ ground (arith, e)
        | inr (answered, e) ↦ ground (arith, e, v.referenced e, eq_iff row.rail_reference "")
      ],
    ),
  )

  check_rows-nil_iff :
      (rows : List JournalRow)
      → ((k : String) → k ≢ "" → lookup k by_key ≡ first_receipt k receipts)
      → ((check_rows by_key processed refs rows).findings ≡ [])
        ↔ All (AgreesIfKeyed receipts processed refs) rows
  unfolding check_rows
  check_rows-nil_iff [] same = ((λ e. tt), λ e. refl)
  check_rows-nil_iff (row ∷ rows) same = elim (Bool-cases (str_eq row.idempotency_key "")) [
    | inl e ↦ rw e (
      (λ f. (
        (λ named. absurd (named ((eq_iff row.idempotency_key "").0 e))),
        (check_rows-nil_iff rows same).0 f,
      )),
      λ v. (check_rows-nil_iff rows same).1 v.1,
    )
    | inr e ↦
        let named : row.idempotency_key ≢ "" =
          λ empty. absurd (ground (arith, e, empty, eq_iff row.idempotency_key "")) in
        let here = row_findings-Agrees row (same row.idempotency_key named) in
        rw e (
          (λ f.
              let (a, b) = (append-nil_iff _ _).0 f in
              ((λ n. here.0 a), (check_rows-nil_iff rows same).0 b)),
          λ v. (append-nil_iff _ _).1 (here.1 (v.0 named), (check_rows-nil_iff rows same).1 v.1),
        )
  ]

module _ (rows : List JournalRow) where
  abbrev lacks_row : String → Receipt → Bool
  lacks_row k r = is_executed r.status && not (has_row k rows)

  entry-nil_iff :
      (k : String) (r : Receipt)
      → (found (lacks_row k r) receipt_no_journal k r.rail_reference ≡ [])
        ↔ (r.status ≡ executed → has_row k rows ≡ true)
  entry-nil_iff k r = (
    (λ e x. ground arith),
    λ v. elim (Bool-cases (is_executed r.status)) [
      | inl e ↦ ground (arith, v (is_executed-executed r.status e))
      | inr e ↦ ground arith
    ],
  )

  check_receipts-nil_iff :
      (d : Dict Receipt)
      → HasUniqueKeys d
      → (check_receipts rows d ≡ []) ↔ (
          (k : String) (r : Receipt)
          → lookup k d ≡ some r
          → r.status ≡ executed
          → has_row k rows ≡ true)
  unfolding check_receipts lookup
  check_receipts-nil_iff [] u = ((λ e k r h x. absurd (ground arith)), λ v. refl)
  check_receipts-nil_iff ((j, w) ∷ d) u = (
    (λ e k r h x.
        let (here, rest) = (append-nil_iff _ _).0 e in
        elim (Bool-cases (str_eq j k)) [
          | inl same ↦ ground (arith, (entry-nil_iff j w).0 here, h, x, same, eq_iff j k)
          | inr other ↦ (check_receipts-nil_iff d u.1).0 rest k r (ground (arith, h, other)) x
        ]),
    λ v. (append-nil_iff _ _).1 (
      (entry-nil_iff j w).1 (v j w (ground (arith, eq_refl j))),
      (check_receipts-nil_iff d u.1).1 (λ k r h. v k r (ground (arith, h, u.0, eq_iff j k))),
    ),
  )

set_default-HasUniqueKeys :
    (k : String) (r : Receipt) (d : Dict Receipt)
    → HasUniqueKeys d
    → HasUniqueKeys (set_default k r d)
unfolding set_default
set_default-HasUniqueKeys k r d u = elim (Option-cases (lookup k d)) [
  | inl e ↦ rw e (insert-HasUniqueKeys k r d e u)
  | inr (held, e) ↦ rw e u
]

index_receipts-HasUniqueKeys :
    (rs : List Receipt) (d : Dict Receipt) → HasUniqueKeys d → HasUniqueKeys (index_receipts rs d)
unfolding index_receipts
index_receipts-HasUniqueKeys [] d u = u
index_receipts-HasUniqueKeys (r ∷ rs) d u = elim (Bool-cases (str_eq r.idempotency_key "")) [
  | inl e ↦ rw e (index_receipts-HasUniqueKeys rs d u)
  | inr e ↦
      rw e (index_receipts-HasUniqueKeys rs _ (set_default-HasUniqueKeys r.idempotency_key r d u))
]

-- A report is clean exactly when the three facts agree. Nothing is found if and only if every row
-- that has a key agrees with the ledger and the rail (one that says dispatched has a receipt, one
-- that says confirmed has its key among the processed ones, and the reference of either is known to
-- the rail where the rail answered), and the journal has a row for every key whose first receipt is
-- executed.
pub reconcile-clean_iff :
    (rows : List JournalRow) (receipts : List Receipt) (processed : Dict String)
    (refs : Option (List String))
    → ((reconcile rows receipts processed refs).findings ≡ [])
      ↔ (All (AgreesIfKeyed receipts processed refs) rows × Journaled receipts rows)
unfolding reconcile
reconcile-clean_iff rows receipts processed refs =
    let by_key : Dict Receipt = index_receipts receipts [] in
    let same : (k : String) → k ≢ "" → lookup k by_key ≡ first_receipt k receipts = λ k named.
      ground (arith, lookup-index_receipts k receipts [] named, lookup-nil {V = Receipt} k) in
    let by_row = check_rows-nil_iff receipts by_key processed refs rows same in
    let by_receipt =
      check_receipts-nil_iff rows by_key (index_receipts-HasUniqueKeys receipts [] tt) in
    (
      (λ e.
          let (a, b) = (append-nil_iff _ _).0 e in
          (by_row.0 a, λ k r named h x. by_receipt.0 b k r (same k named ∙ h) x)),
      λ v. (append-nil_iff _ _).1 (
        by_row.1 v.0,
        by_receipt.1 (λ k r h x. elim (Bool-cases (str_eq k "")) [
          | inl e ↦ absurd (
              ground (
                arith,
                h,
                e,
                eq_iff k "",
                index_receipts-none receipts [] (lookup-nil {V = Receipt} ""),
              ))
          | inr e ↦
              v.1 k r (λ empty. absurd (ground (arith, e, empty, eq_iff k "")))
                (sym (same k (λ empty. absurd (ground (arith, e, empty, eq_iff k "")))) ∙ h) x
        ]),
      ),
    )
