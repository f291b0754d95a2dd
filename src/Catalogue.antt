-- ===== src/Catalogue.antt =====
-- The strategies and assets that the host lists: `_sleeve_from_catalogue` of
-- miriam_agent/hands/invest_funding.py and `_pick_asset` of miriam_agent/hands/orders.py.
use miriam.Prelude.{
  String, Bool, ◌&&◌, ◌||◌, not, Option, none, some, List, [], ◌∷◌, Dict, str_eq, if◌then◌else◌,
}
use miriam.Host.{Leaf, Reply, Words, first_text, as_values}

-- `_sleeve_from_catalogue`; a row that is no dict raises
pub data Pick : Type 0 where
  broken missing : Pick
  picked : Reply → Pick

unfoldable pub sleeve_from_catalogue : Words → List (Option (Dict Leaf)) → Pick
unfolding first_text
sleeve_from_catalogue w [] = missing
sleeve_from_catalogue w (none ∷ rs) = broken
sleeve_from_catalogue w (some r ∷ rs) =
    if str_eq (w.lower (w.strip (first_text w ("name" ∷ []) (as_values r)))) "rail stock sleeve"
    then picked (as_values r)
    else sleeve_from_catalogue w rs

-- the two passes of `_pick_asset`
abbrev symbol_at : Words → String → Reply → String
symbol_at w k a = w.upper (w.strip (first_text w (k ∷ []) a))

abbrev names : Words → String → String → Reply → Bool
names w want k a = not (str_eq (symbol_at w k a) "") && str_eq (symbol_at w k a) want

unfoldable pub exact_asset : Words → String → List (Option (Dict Leaf)) → Option Reply
unfolding first_text
exact_asset w want [] = none
exact_asset w want (none ∷ rs) = exact_asset w want rs
exact_asset w want (some r ∷ rs) =
    if names w want "symbol" (as_values r) || names w want "Symbol" (as_values r)
    then some (as_values r)
    else exact_asset w want rs

abbrev base_of : Words → Reply → String
base_of w a = w.upper (w.strip (first_text w ("symbol" ∷ "Symbol" ∷ []) a))

unfoldable pub close_asset : Words → String → List (Option (Dict Leaf)) → Option Reply
unfolding first_text
close_asset w want [] = none
close_asset w want (none ∷ rs) = close_asset w want rs
close_asset w want (some r ∷ rs) =
    let base = base_of w (as_values r) in
    if str_eq base want || str_eq (w.strip_x base) (w.strip_x want)
    then some (as_values r)
    else close_asset w want rs

abbrev or_asset : Option Reply → Option Reply → Option Reply
or_asset (some a) b = some a
or_asset none b = b

-- `_pick_asset`
unfoldable pub pick_asset : Words → String → List (Option (Dict Leaf)) → Option Reply
pick_asset w symbol rs =
    let want = w.upper (w.strip symbol) in
    if str_eq want "" then none else or_asset (exact_asset w want rs) (close_asset w want rs)
