-- ===== src/Payments/Stores.antt =====
-- The two stores of miriam_agent/hands/payment_refs.py. `InMemoryPaymentRefStore` is a list of keys;
-- `PostgresPaymentRefStore` runs one insert on a table, which is a parameter with what SQL documents
-- of an insert that does nothing on a conflict.
use miriam.Prelude.{
  ◌≡◌, ℕ, Bool, true, false, ◌||◌, List, [], ◌∷◌, ◌==◌, arith, eq_iff, if◌then◌else◌,
}
use miriam.Payments.{PaymentRefKey, PaymentRefStore, same_key}

unfoldable pub contains_key : PaymentRefKey → List PaymentRefKey → Bool
contains_key k [] = false
contains_key k (j ∷ rows) = same_key j k || contains_key k rows

-- `InMemoryPaymentRefStore.claim`
unfoldable pub claim_in_memory : PaymentRefKey → List PaymentRefKey → Bool × List PaymentRefKey
unfolding contains_key
claim_in_memory k rows = if contains_key k rows then (true, rows) else (false, k ∷ rows)

-- The table `payment_references`, unique on the four columns: whether it has a row with these, and
-- the insert, with the count of the rows that it inserts.
pub record ReferenceTable (T : Type 0) : Type 0 where
  pub has_row : PaymentRefKey → T → Bool
  pub insert_or_ignore : PaymentRefKey → T → ℕ × T
  pub rowcount :
      (k : PaymentRefKey) (t : T) → (insert_or_ignore k t).0 ≡ (if has_row k t then 0 else 1)
  pub inserted :
      (k j : PaymentRefKey) (t : T)
      → has_row j (insert_or_ignore k t).1 ≡ (same_key k j || has_row j t)

-- `PostgresPaymentRefStore.claim`
unfoldable pub claim_in_table : {T : Type 0} → ReferenceTable T → PaymentRefKey → T → Bool × T
claim_in_table table k t = let (rowcount, t') = table.insert_or_ignore k t in (rowcount == 0, t')

same_key_trans :
    (a b c : PaymentRefKey) → same_key a b ≡ true → same_key b c ≡ true → same_key a c ≡ true
unfolding same_key
same_key_trans a b c h e = ground (
  arith,
  h,
  e,
  eq_iff a.channel b.channel,
  eq_iff b.channel c.channel,
  eq_iff a.channel c.channel,
  eq_iff a.sender_handle b.sender_handle,
  eq_iff b.sender_handle c.sender_handle,
  eq_iff a.sender_handle c.sender_handle,
  eq_iff a.reference b.reference,
  eq_iff b.reference c.reference,
  eq_iff a.reference c.reference,
)

-- The key that is claimed and the one that is held agree on every other key.
same_key-contains_key :
    (k j : PaymentRefKey) (rows : List PaymentRefKey)
    → contains_key k rows ≡ true
    → same_key k j ≡ true
    → contains_key j rows ≡ true
unfolding contains_key
same_key-contains_key k j [] h e = absurd (ground arith)
same_key-contains_key k j (r ∷ rows) h e =
    ground (arith, h, same_key_trans r k j, e, same_key-contains_key k j rows)

pub claim_in_memory-duplicate :
    (k : PaymentRefKey) (rows : List PaymentRefKey)
    → (claim_in_memory k rows).0 ≡ contains_key k rows
unfolding claim_in_memory
claim_in_memory-duplicate k rows = ground arith

pub claim_in_memory-contains_key :
    (k j : PaymentRefKey) (rows : List PaymentRefKey)
    → contains_key j (claim_in_memory k rows).1 ≡ (same_key k j || contains_key j rows)
unfolding claim_in_memory contains_key
claim_in_memory-contains_key k j rows = ground (arith, same_key-contains_key k j rows)

abbrev pub memory_refs : PaymentRefStore (List PaymentRefKey)
memory_refs = record {
  is_claimed = contains_key;
  claim = claim_in_memory;
  claim-duplicate = claim_in_memory-duplicate;
  claim-is_claimed = claim_in_memory-contains_key;
}

pub claim_in_table-duplicate :
    {T : Type 0} (table : ReferenceTable T) (k : PaymentRefKey) (t : T)
    → (claim_in_table table k t).0 ≡ table.has_row k t
unfolding claim_in_table
claim_in_table-duplicate table k t = ground (arith, table.rowcount k t)

pub claim_in_table-inserted :
    {T : Type 0} (table : ReferenceTable T) (k j : PaymentRefKey) (t : T)
    → table.has_row j (claim_in_table table k t).1 ≡ (same_key k j || table.has_row j t)
unfolding claim_in_table
claim_in_table-inserted table k j t = table.inserted k j t

-- Either store answers a claim by whether its four columns have been claimed before.
abbrev pub sql_refs : {T : Type 0} → ReferenceTable T → PaymentRefStore T
sql_refs table = record {
  is_claimed = table.has_row;
  claim = claim_in_table table;
  claim-duplicate = claim_in_table-duplicate table;
  claim-is_claimed = claim_in_table-inserted table;
}
