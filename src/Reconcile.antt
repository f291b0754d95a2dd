-- ===== src/Reconcile.antt =====
-- miriam_agent/hands/reconcile.py: the comparison of the journal's rows, the ledger's receipts and
-- keys, and the rail's references. A rail that is not given and one that does not answer are both
-- `none`. The prose of a finding and the instant of the report are left out.
pub mod Drift
use miriam.Prelude.{
  ℕ, suc, ◌+◌, String, Bool, true, false, ◌&&◌, ◌||◌, not, Option, none, some, List, [], ◌∷◌, ◌++◌,
  Dict, lookup, set_default, is_some, str_eq, if◌then◌else◌,
}
use miriam.Audit.{Receipt, ReceiptStatus, executed}

-- what the comparison reads of a row, each field as text and "" where it is missing
pub record JournalRow : Type 0 where
  pub idempotency_key : String
  pub status : String
  pub rail_reference : String

pub data DriftKind : Type 0 where
  journal_dispatched_no_receipt journal_confirmed_no_processed : DriftKind
  rail_unknown_reference receipt_no_journal : DriftKind

pub record DriftFinding : Type 0 where
  pub kind : DriftKind
  pub idempotency_key : String
  pub rail_reference : String

pub record ReconciliationReport : Type 0 where
  pub checked : ℕ
  pub findings : List DriftFinding

-- the loop that fills `receipts_by_key`: the first receipt of each key that is not empty
unfoldable pub index_receipts : List Receipt → Dict Receipt → Dict Receipt
index_receipts [] d = d
index_receipts (r ∷ rs) d =
    index_receipts rs (if str_eq r.idempotency_key "" then d else set_default r.idempotency_key r d)

-- `x in xs`
abbrev pub contains : String → List String → Bool
contains x [] = false
contains x (y ∷ ys) = str_eq y x || contains x ys

abbrev pub is_live : String → Bool
is_live status = str_eq status "dispatched" || str_eq status "confirmed"

abbrev pub found : Bool → DriftKind → String → String → List DriftFinding
found b kind key ref =
    if b then record { kind = kind; idempotency_key = key; rail_reference = ref } ∷ [] else []

abbrev pub is_unknown : Option (List String) → String → Bool
is_unknown none ref = false
is_unknown (some refs) ref = not (contains ref refs)

-- the three tests of a row
abbrev pub lacks_receipt : Dict Receipt → JournalRow → Bool
lacks_receipt by_key row =
    str_eq row.status "dispatched" && not (is_some (lookup row.idempotency_key by_key))

abbrev pub lacks_key : Dict String → JournalRow → Bool
lacks_key processed row =
    str_eq row.status "confirmed" && not (is_some (lookup row.idempotency_key processed))

abbrev pub lacks_reference : Option (List String) → JournalRow → Bool
lacks_reference refs row =
    not (str_eq row.rail_reference "") && (is_live row.status && is_unknown refs row.rail_reference)

-- the body of the loop over the rows, after its guard
unfoldable pub row_findings :
    Dict Receipt → Dict String → Option (List String) → JournalRow → List DriftFinding
row_findings by_key processed refs row =
    found (lacks_receipt by_key row) journal_dispatched_no_receipt row.idempotency_key
      row.rail_reference
    ++ (found (lacks_key processed row) journal_confirmed_no_processed row.idempotency_key
          row.rail_reference
        ++ found (lacks_reference refs row) rail_unknown_reference row.idempotency_key
            row.rail_reference)

-- the loop over the rows; a row without a key is not checked
unfoldable pub check_rows :
    Dict Receipt → Dict String → Option (List String) → List JournalRow → ReconciliationReport
check_rows by_key processed refs [] = record { checked = 0; findings = [] }
check_rows by_key processed refs (row ∷ rows) =
    let rest = check_rows by_key processed refs rows in
    if str_eq row.idempotency_key "" then rest else record {
      checked = suc rest.checked;
      findings = row_findings by_key processed refs row ++ rest.findings;
    }

-- `key in journal_keys`
unfoldable pub has_row : String → List JournalRow → Bool
has_row key [] = false
has_row key (row ∷ rows) = str_eq row.idempotency_key key || has_row key rows

abbrev pub is_executed : ReceiptStatus → Bool
is_executed executed = true
is_executed _ = false

-- the loop over `receipts_by_key`
unfoldable pub check_receipts : List JournalRow → Dict Receipt → List DriftFinding
check_receipts rows [] = []
check_receipts rows ((key, r) ∷ d) =
    found (is_executed r.status && not (has_row key rows)) receipt_no_journal key r.rail_reference
    ++ check_receipts rows d

-- `reconcile`
unfoldable pub reconcile :
    List JournalRow → List Receipt → Dict String → Option (List String) → ReconciliationReport
reconcile rows receipts processed refs =
    let by_key = index_receipts receipts [] in
    let report = check_rows by_key processed refs rows in
    record report { findings = report.findings ++ check_receipts rows by_key }
