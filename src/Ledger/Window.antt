-- ===== src/Ledger/Window.antt =====
-- `Ledger.window` of miriam_agent/hands/ledger.py: what came in, what left, and where it leaked,
-- over the trailing days. The leaks are a dict in order of first use; the source sorts them by name
-- and prints each one.
use miriam.Prelude.{
  ℕ, ◌-◌, ◌*◌, ◌≡◌, ℤ, pos, ◌+ℤ◌, int_laws, List, [], ◌∷◌, Dict, lookup, insert, get_or, total,
  total-insert, ltb, str_eq, if◌then◌else◌,
}
use miriam.Ledger.{Ledger, Movement, MovementKind, inflow, outflow}

pub record Last30d : Type 0 where
  pub inflow : ℤ
  pub spend : ℤ
  pub leak_by_category : Dict ℤ

abbrev pub window_days : ℕ
window_days = 30

abbrev pub seconds_per_day : ℕ
seconds_per_day = 86400

-- `leaks[category] = leaks.get(category, 0) + amount`, for a movement with a category
add_leak : Movement → Dict ℤ → Dict ℤ
add_leak m leaks =
    if str_eq m.category ""
    then leaks
    else insert m.category (get_or (lookup m.category leaks) (pos 0) +ℤ m.amount) leaks

-- one round of the loop, for a movement inside the window
count_movement : MovementKind → Movement → Last30d → Last30d
unfolding add_leak
count_movement inflow m w =
    if str_eq m.category "stash_sync" then w else record w { inflow = w.inflow +ℤ m.amount }
count_movement outflow m w = record w {
  spend = w.spend +ℤ m.amount;
  leak_by_category = add_leak m w.leak_by_category;
}
count_movement _ m w = w

scan : ℕ → List Movement → Last30d → Last30d
unfolding count_movement
scan cutoff [] w = w
scan cutoff (m ∷ ms) w = scan cutoff ms (if ltb m.at cutoff then w else count_movement m.kind m w)

-- `Ledger.window`, at a time `now`. Each sum is of whole cents, so the final `money` changes none.
pub window : ℕ → ℕ → Ledger → Last30d
unfolding scan
window days now l =
    scan (now - days * seconds_per_day) l.movements
      (record { inflow = pos 0; spend = pos 0; leak_by_category = [] })

-- An outflow inside the window that has no category.
abbrev uncategorised : MovementKind → ℕ → Movement → ℤ
uncategorised outflow cutoff m =
    if ltb m.at cutoff then pos 0 else (if str_eq m.category "" then m.amount else pos 0)
uncategorised _ cutoff m = pos 0

abbrev pub unlabelled : ℕ → List Movement → ℤ
unlabelled cutoff [] = pos 0
unlabelled cutoff (m ∷ ms) = uncategorised m.kind cutoff m +ℤ unlabelled cutoff ms

total-add_leak :
    (m : Movement) (d : Dict ℤ)
    → total (add_leak m d) ≡ total d +ℤ (if str_eq m.category "" then pos 0 else m.amount)
unfolding add_leak
total-add_leak m d =
    grind (int_laws, total-insert m.category (get_or (lookup m.category d) (pos 0) +ℤ m.amount) d)

abbrev step : MovementKind → ℕ → Movement → Last30d → Last30d
step k cutoff m w = if ltb m.at cutoff then w else count_movement k m w

step-leaks :
    (k : MovementKind) (cutoff : ℕ) (m : Movement) (w : Last30d)
    → total (step k cutoff m w).leak_by_category +ℤ w.spend +ℤ uncategorised k cutoff m
      ≡ total w.leak_by_category +ℤ (step k cutoff m w).spend
unfolding count_movement
step-leaks inflow cutoff m w = grind int_laws
step-leaks outflow cutoff m w = grind (int_laws, total-add_leak m w.leak_by_category)
step-leaks _ cutoff m w = grind int_laws

scan-leaks :
    (cutoff : ℕ) (ms : List Movement) (w : Last30d)
    → total (scan cutoff ms w).leak_by_category +ℤ w.spend +ℤ unlabelled cutoff ms
      ≡ total w.leak_by_category +ℤ (scan cutoff ms w).spend
unfolding scan
scan-leaks cutoff [] w = grind int_laws
scan-leaks cutoff (m ∷ ms) w =
    grind (int_laws, step-leaks m.kind cutoff m w, scan-leaks cutoff ms (step m.kind cutoff m w))

-- The leaks by category account for the whole spend of the window, but for the outflows that carry
-- no category.
pub window_leaks :
    (days now : ℕ) (l : Ledger)
    → let w = window days now l in
      total w.leak_by_category +ℤ unlabelled (now - days * seconds_per_day) l.movements ≡ w.spend
unfolding window total
window_leaks days now l = grind (
  int_laws,
  scan-leaks (now - days * seconds_per_day) l.movements
      (record { inflow = pos 0; spend = pos 0; leak_by_category = [] }),
)
