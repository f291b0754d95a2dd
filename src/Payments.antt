-- ===== src/Payments.antt =====
-- miriam_agent/hands/payment_refs.py: the identity of an inbound payment, and the stores of the
-- payments that have been claimed. What `strip().casefold()` makes of a text and the SHA-256 digest
-- of a key are parameters, gathered in `Identity`. The payload that a row keeps for disputes is left
-- out: no claim reads it.
pub mod Stores
use miriam.Prelude.{
  ◌≡◌, String, ℤ, Bool, true, false, ◌&&◌, ◌||◌, not, leb_ℤ, str_eq, if◌then◌else◌,
}
use Prim.Native.String.{◌++◌ as join}
use miriam.Decimal.{Decimal, money}

-- `PaymentRefKey`
pub record PaymentRefKey : Type 0 where
  pub channel : String
  pub sender_handle : String
  pub amount_minor : ℤ
  pub reference : String

-- `_normalise`, and the digest that `inflow_id_for_payment` takes of the columns
pub record Identity : Type 0 where
  pub normalise : String → String
  pub digest : PaymentRefKey → String

-- `amount_to_minor`: the rounding of `money`, half away from zero at two decimals
unfoldable pub amount_to_minor : Decimal → ℤ
amount_to_minor d = money d

-- `PaymentRefKey.of`
unfoldable pub key_of : Identity → String → String → ℤ → String → PaymentRefKey
key_of i channel sender amount_minor reference = record {
  channel = i.normalise channel;
  sender_handle = i.normalise sender;
  amount_minor = amount_minor;
  reference = i.normalise reference;
}

-- `PaymentRefKey.complete`
unfoldable pub is_complete : PaymentRefKey → Bool
is_complete k = not (str_eq k.reference "")

-- `inflow_id_for_payment`
unfoldable pub inflow_id_for_payment : Identity → PaymentRefKey → String
inflow_id_for_payment i k = join "inflow_" (i.digest k)

abbrev eq_ℤ : ℤ → ℤ → Bool
eq_ℤ a b = leb_ℤ a b && leb_ℤ b a

-- equality of the four columns
unfoldable pub same_key : PaymentRefKey → PaymentRefKey → Bool
same_key a b =
    str_eq a.channel b.channel
    && (str_eq a.sender_handle b.sender_handle
        && (eq_ℤ a.amount_minor b.amount_minor && str_eq a.reference b.reference))

-- `PaymentRefStore`: a claim answers whether the payment is a duplicate, which it is when its key
-- has been claimed before, and it leaves its key claimed, with every other one as it was.
pub record PaymentRefStore (R : Type 0) : Type 0 where
  pub is_claimed : PaymentRefKey → R → Bool
  pub claim : PaymentRefKey → R → Bool × R
  pub claim-duplicate : (k : PaymentRefKey) (s : R) → (claim k s).0 ≡ is_claimed k s
  pub claim-is_claimed :
      (k j : PaymentRefKey) (s : R) → is_claimed j (claim k s).1 ≡ (same_key k j || is_claimed j s)
