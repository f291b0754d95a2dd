-- ===== src/Journal/Once.antt =====
-- The journal of miriam_agent/hands/execution_journal.py over orders of claims and marks.
use miriam.Prelude.{
  ℕ, suc, ◌≤◌, ◌≡◌, refl, arith, Option-cases, inl, inr, Bool-cases, sym, ◌↔◌, String, Bool, true,
  false, none, some, List, [], ◌∷◌, lookup, lookup-insert, is_some, str_eq, eq_iff, eq_refl,
  if◌then◌else◌,
}
use miriam.Journal.{
  Journal, Row, Status, reserved, dispatched, confirmed, failed, is_terminal, reserve, transition,
  safe_mark, moved, fresh_row,
}

abbrev pub HasKey : String → Journal → Type 0
HasKey key j = is_some (lookup key j) ≡ true

-- A call on the journal, by any worker.
pub data Call : Type 0 where
  claim : String → String → Call
  mark : Status → String → String → Call

pub answer_call : Call → Journal → Bool × Journal
answer_call (claim key user) j = let (c, j') = reserve key user j in (c.won, j')
answer_call (mark to ref key) j = (false, transition to ref key j)

abbrev is_claim_of : String → Call → Bool
is_claim_of key (claim k user) = str_eq k key
is_claim_of key (mark to ref k) = false

-- How many claims of the key are won, over calls in the order in which they reach the journal.
pub wins : String → List Call → Journal → ℕ
wins key [] j = 0
wins key (c ∷ cs) j =
    let rest = wins key cs (answer_call c j).1 in
    if is_claim_of key c then (if (answer_call c j).0 then suc rest else rest) else rest

pub transition-HasKey :
    (k : String) (to : Status) (ref key : String) (j : Journal)
    → is_some (lookup k (transition to ref key j)) ≡ is_some (lookup k j)
unfolding transition
transition-HasKey k to ref key j = elim (Option-cases (lookup key j)) [
  | inl none_held ↦ ground arith
  | inr (row, held) ↦ ground (arith, lookup-insert key k (moved to ref row) j, eq_iff key k)
]

pub reserve-HasKey :
    (k key user : String) (j : Journal) → HasKey k j → HasKey k (reserve key user j).1
unfolding reserve
reserve-HasKey k key user j h = ground (arith, lookup-insert key k (fresh_row user) j, eq_iff key k)

-- A claim that is won leaves its key in the journal.
pub reserve_leaves_key : (key user : String) (j : Journal) → HasKey key (reserve key user j).1
unfolding reserve
reserve_leaves_key key user j =
    ground (arith, lookup-insert key key (fresh_row user) j, eq_refl key)

-- A claim is won exactly when nobody has claimed the key.
pub reserve-won_iff :
    (key user : String) (j : Journal)
    → (((reserve key user j).0.won ≡ true) ↔ (lookup key j ≡ none))
unfolding reserve
reserve-won_iff key user j = ((λ h. ground arith), λ h. ground arith)

pub safe_mark-HasKey :
    (k : String) (lost : Bool) (to : Status) (key ref : String) (j : Journal)
    → is_some (lookup k (safe_mark lost to key ref j)) ≡ is_some (lookup k j)
unfolding safe_mark
safe_mark-HasKey k true to key ref j = refl
safe_mark-HasKey k false dispatched key ref j = transition-HasKey k dispatched ref key j
safe_mark-HasKey k false confirmed key ref j = transition-HasKey k confirmed ref key j
safe_mark-HasKey k false reserved key ref j = transition-HasKey k failed "" key j
safe_mark-HasKey k false failed key ref j = transition-HasKey k failed "" key j

answer_call-HasKey :
    (key : String) (c : Call) (j : Journal) → HasKey key j → HasKey key (answer_call c j).1
unfolding answer_call
answer_call-HasKey key (claim k user) j h = reserve-HasKey key k user j h
answer_call-HasKey key (mark to ref k) j h = rw (transition-HasKey key to ref k j) h

claimed_loses :
    (key : String) (c : Call) (j : Journal)
    → HasKey key j
    → is_claim_of key c ≡ true
    → (answer_call c j).0 ≡ false
unfolding answer_call reserve
claimed_loses key (claim k user) j h e = ground (arith, eq_iff k key)
claimed_loses key (mark to ref k) j h e = cc

wins-HasKey : (key : String) (cs : List Call) (j : Journal) → HasKey key j → wins key cs j ≡ 0
unfolding wins
wins-HasKey key [] j h = refl
wins-HasKey key (c ∷ cs) j h = ground (
  arith,
  claimed_loses key c j h,
  wins-HasKey key cs (answer_call c j).1 (answer_call-HasKey key c j h),
)

win_leaves_key :
    (key : String) (c : Call) (j : Journal)
    → is_claim_of key c ≡ true
    → HasKey key (answer_call c j).1
unfolding answer_call
win_leaves_key key (claim k user) j e =
    let same : k ≡ key = (eq_iff k key).0 e in rw (sym same) (reserve_leaves_key k user j)
win_leaves_key key (mark to ref k) j e = cc

-- Over every order of claims and marks, by any number of workers, each key is won at most once.
pub wins-le-one : (key : String) (cs : List Call) (j : Journal) → wins key cs j ≤ 1
unfolding wins
wins-le-one key [] j = omega arith
wins-le-one key (c ∷ cs) j = elim (Bool-cases (is_claim_of key c)) [
  | inl e ↦ ground (arith, wins-HasKey key cs (answer_call c j).1 (win_leaves_key key c j e))
  | inr e ↦ rw e (wins-le-one key cs (answer_call c j).1)
]

-- The row of a key that is settled.
abbrev pub Settled : String → Row → Journal → Type 0
Settled key row j = (lookup key j ≡ some row) × (is_terminal row.status ≡ true)

transition-Settled :
    (k : String) (row : Row) (to : Status) (ref key : String) (j : Journal)
    → Settled k row j
    → Settled k row (transition to ref key j)
unfolding transition
transition-Settled k row to ref key j h = elim (Option-cases (lookup key j)) [
  | inl none_held ↦ ground arith
  | inr (r, held) ↦ ground (arith, lookup-insert key k (moved to ref r) j, eq_iff key k)
]

answer_call-Settled :
    (key : String) (row : Row) (c : Call) (j : Journal)
    → Settled key row j
    → Settled key row (answer_call c j).1
unfolding answer_call reserve
answer_call-Settled key row (claim k user) j h =
    ground (arith, lookup-insert k key (fresh_row user) j, eq_iff k key)
answer_call-Settled key row (mark to ref k) j h = transition-Settled key row to ref k j h

pub replay_calls : List Call → Journal → Journal
replay_calls [] j = j
replay_calls (c ∷ cs) j = replay_calls cs (answer_call c j).1

-- A confirmed or failed row is final: no later claim or mark, of any key, changes it.
pub Settled-IsFinal :
    (key : String) (row : Row) (cs : List Call) (j : Journal)
    → Settled key row j
    → Settled key row (replay_calls cs j)
unfolding replay_calls
Settled-IsFinal key row [] j h = h
Settled-IsFinal key row (c ∷ cs) j h =
    Settled-IsFinal key row cs (answer_call c j).1 (answer_call-Settled key row c j h)
