-- ===== src/Judgment/Answers.antt =====
-- miriam_agent/judgment/answers.py and the thresholds of miriam_agent/judgment/schema.py. A float of
-- the judge is its exact value, a `Decimal`.
use miriam.Prelude.{
  ◌+◌, pos, ◌-ℤ◌, ◌*ℤ◌, ◌^◌, String, Option, none, some, List, [], ◌∷◌, if◌then◌else◌,
}
use miriam.Decimal.{Decimal, ltb_dec, whole}

-- a choice of the judge: the label, its confidence, and the probabilities of the labels, or none where
-- they cannot be read
pub record ChoiceAnswer : Type 0 where
  pub choice : String
  pub confidence : Decimal
  pub probabilities : Option (List Decimal)

-- `MoneyJudgment`
pub record MoneyJudgment : Type 0 where
  pub inflow_class : ChoiceAnswer
  pub intent_type : ChoiceAnswer

-- `THRESHOLDS`, as exact decimals, where the code compares floats: a confidence or a margin that is at a
-- threshold up to the rounding of floats may be judged otherwise there
abbrev pub inflow_min_confidence : Decimal
inflow_min_confidence = record { coef = pos 60; places = 2 }

abbrev pub intent_min_confidence : Decimal
intent_min_confidence = record { coef = pos 62; places = 2 }

abbrev pub intent_min_margin : Decimal
intent_min_margin = record { coef = pos 15; places = 2 }

-- the difference of two probabilities
abbrev sub : Decimal → Decimal → Decimal
sub a b = record {
  coef = a.coef *ℤ pos (10 ^ b.places) -ℤ b.coef *ℤ pos (10 ^ a.places);
  places = a.places + b.places;
}

-- the values in descending order
abbrev insert_sorted : Decimal → List Decimal → List Decimal
insert_sorted x [] = x ∷ []
insert_sorted x (y ∷ ys) =
    let rest = insert_sorted x ys in if ltb_dec x y then y ∷ rest else x ∷ y ∷ ys

unfoldable pub sort_descending : List Decimal → List Decimal
sort_descending [] = []
sort_descending (x ∷ xs) = insert_sorted x (sort_descending xs)

abbrev at_least_nought : Decimal → Decimal
at_least_nought d = if ltb_dec d (whole (pos 0)) then whole (pos 0) else d

-- fewer than two values are a clean margin
abbrev margin_of : List Decimal → Decimal
margin_of (first ∷ second ∷ rest) = at_least_nought (sub first second)
margin_of _ = whole (pos 1)

abbrev margin_or : Option (List Decimal) → Decimal
margin_or none = whole (pos 1)
margin_or (some values) = margin_of (sort_descending values)

-- `choice_margin`
unfoldable pub choice_margin : ChoiceAnswer → Decimal
unfolding sort_descending
choice_margin a = margin_or a.probabilities
