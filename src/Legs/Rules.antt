-- ===== src/Legs/Rules.antt =====
-- The leg of a save rule: `_handle_confirm_save_rule` of miriam_agent/hands/settle_legs.py, with
-- `select_save_automation` of miriam_agent/hands/save_rule.py.
use miriam.Prelude.{
  ◌≡◌, refl, sym, ◌⊎◌, inl, inr, Bool, true, false, Bool-cases, String, List, [], ◌∷◌, ◌++◌, Option,
  none, some, str_eq, eq_iff, arith, if◌then◌else◌, ◌||◌,
}
use mathlib.Core.Path.{subst}
use miriam.Audit.{Receipt}
use miriam.Ledger.{Challenge}
use miriam.Store.{LedgerStore}
use miriam.Settlement.{Tap, is_foreign, or_text}
use miriam.Host.{
  Desk, Site, Words, Reply, Answer, replied, listed, garbled, raised, cooling_down, Request,
  list_automations, update_automation, ask_host,
}
use miriam.Host.Frames.{save_site-asked}
use miriam.SaveRules.{
  id_of, reads_as_rule, with_id, first_rule, only_or_first, select_save_automation, listed_rows,
  is_raised, percentage_of, amount_of, automation_of, update_rule, settle_rule,
}
use miriam.Legs.{consumed_site, confirm_save_rule}
use miriam.Legs.Repeats.{mismatch-asked}

-- The rule is one of those listed.
pub data IsListed (a : Reply) : List Reply → Type 0 where
  here : {as' : List Reply} → IsListed a (a ∷ as')
  there : {b : Reply} {as' : List Reply} → IsListed a as' → IsListed a (b ∷ as')

-- The rule has the id that is asked for; where none is asked for it is the only one, or reads as a
-- save rule.
abbrev pub Fits : Words → String → List Reply → Reply → Type 0
Fits w id as' a = (id_of w a ≡ id) ⊎ ((id ≡ "") × ((as' ≡ a ∷ []) ⊎ (reads_as_rule w a ≡ true)))

-- The first of two branches gives the rule, or the second does.
if-some :
    (b : Bool) (x : Reply) (r : Option Reply) (a : Reply)
    → (if b then some x else r) ≡ some a
    → ((b ≡ true) × (x ≡ a)) ⊎ (r ≡ some a)
if-some true x r a h = inl (refl, cc h)
if-some false x r a h = inr h

with_id-Fits :
    (w : Words) (id : String) (as' : List Reply) (a : Reply)
    → with_id w id as' ≡ some a
    → IsListed a as' × (id_of w a ≡ id)
unfolding with_id
with_id-Fits w id [] a h = absurd (cc h)
with_id-Fits w id (b ∷ as') a h = elim (if-some (str_eq (id_of w b) id) b (with_id w id as') a h) [
  | inl (e, same) ↦
      subst (λ x. IsListed x (b ∷ as') × (id_of w x ≡ id)) same (here, (eq_iff (id_of w b) id).0 e)
  | inr e ↦ (let (k, f) = with_id-Fits w id as' a e in (there k, f))
]

first_rule-Fits :
    (w : Words) (as' : List Reply) (a : Reply)
    → first_rule w as' ≡ some a
    → IsListed a as' × (reads_as_rule w a ≡ true)
unfolding first_rule
first_rule-Fits w [] a h = absurd (cc h)
first_rule-Fits w (b ∷ as') a h = elim (if-some (reads_as_rule w b) b (first_rule w as') a h) [
  | inl (e, same) ↦ subst (λ x. IsListed x (b ∷ as') × (reads_as_rule w x ≡ true)) same (here, e)
  | inr e ↦ (let (k, f) = first_rule-Fits w as' a e in (there k, f))
]

only_or_first-Fits :
    (w : Words) (as' : List Reply) (a : Reply)
    → only_or_first w as' ≡ some a
    → IsListed a as' × ((as' ≡ a ∷ []) ⊎ (reads_as_rule w a ≡ true))
only_or_first-Fits w [] a h = let (k, f) = first_rule-Fits w [] a h in (k, inr f)
only_or_first-Fits w (b ∷ []) a h =
    let same : b ≡ a = cc h in
    subst (λ x. IsListed x (b ∷ []) × (((b ∷ []) ≡ x ∷ []) ⊎ (reads_as_rule w x ≡ true))) same
      (here, inl refl)
only_or_first-Fits w (b ∷ c ∷ as') a h =
    let (k, f) = first_rule-Fits w (b ∷ c ∷ as') a h in (k, inr f)

select_save_automation-Fits :
    (w : Words) (id : String) (as' : List Reply) (a : Reply)
    → select_save_automation w id as' ≡ some a
    → IsListed a as' × Fits w id as' a
unfolding select_save_automation
select_save_automation-Fits w id as' a h = elim (Bool-cases (str_eq id "")) [
  | inl e ↦
      (let (k, f) = only_or_first-Fits w as' a (rw e at h) in (k, inr ((eq_iff id "").0 e, f)))
  | inr e ↦ (let (k, f) = with_id-Fits w id as' a (rw e at h) in (k, inl f))
]

select_none : (w : Words) (id : String) → select_save_automation w id [] ≡ none
unfolding select_save_automation with_id first_rule
select_none w id = ground arith

-- the one update that the challenge allows, of this rule
abbrev update_of : Desk → Challenge → Reply → Request
update_of d c a =
    update_automation (id_of d.words a)
      (if str_eq (percentage_of d c) "" then "amount" else "percentage")
      (or_text (percentage_of d c) (amount_of d c))

-- What a tap has asked: nothing, the list of the rules, or that list and then one update.
abbrev pub RuleAsks : Desk → Challenge → List Request → List Request → Type 0
RuleAsks d c before after =
    (after ≡ before)
    ⊎ ((after ≡ before ++ (list_automations ∷ []))
        ⊎ ((a : Reply) × ((as' : List Reply) × ((d.host before list_automations ≡ listed as')
                × (IsListed a as'
                    × (Fits d.words (automation_of d c) as' a
                        × (after
                            ≡ (before ++ (list_automations ∷ [])) ++ (update_of d c a ∷ []))))))))

module _ {S : Type 0} where
  updated :
      (d : Desk) (c : Challenge) (t : Site S) (as' : List Reply)
      → d.host t.asked list_automations ≡ listed as'
      → (r : Option Reply) → select_save_automation d.words (automation_of d c) as' ≡ r
      → RuleAsks d c t.asked
          (update_rule d c r (record t { asked = t.asked ++ (list_automations ∷ []) })).1.asked
  unfolding update_rule ask_host
  updated d c t as' h none e = inr (inl refl)
  updated d c t as' h (some a) e =
      let (k, f) = select_save_automation-Fits d.words (automation_of d c) as' a e in
      inr (inr (a, (as', (h, (k, (f, refl))))))

  after_list :
      (d : Desk) (c : Challenge) (t : Site S) (r : Receipt) (a : Answer)
      → d.host t.asked list_automations ≡ a
      → let t' = record t { asked = t.asked ++ (list_automations ∷ []) } in
        let rule = select_save_automation d.words (automation_of d c) (listed_rows a) in
        RuleAsks d c t.asked (if is_raised a then (r, t') else update_rule d c rule t').1.asked
  unfolding update_rule
  after_list d c t r (listed as') h = updated d c t as' h _ refl
  after_list d c t r (replied x) h = rw (select_none d.words (automation_of d c)) (inr (inl refl))
  after_list d c t r garbled h = rw (select_none d.words (automation_of d c)) (inr (inl refl))
  after_list d c t r raised h = inr (inl refl)
  after_list d c t r (cooling_down n) h = inr (inl refl)

  settle_rule-RuleAsks :
      (d : Desk) (c : Challenge) (t : Site S) → RuleAsks d c t.asked (settle_rule d c t).1.asked
  unfolding settle_rule ask_host
  settle_rule-RuleAsks d c t =
      elim (Bool-cases
        (str_eq d.token "" || str_eq (or_text (percentage_of d c) (amount_of d c)) "")) [
          | inl e ↦ rw (e, settle_rule) (inl refl)
          | inr e ↦ rw (e, settle_rule) (after_list d c t _ (d.host t.asked list_automations) refl)
        ]

  -- A tap on a save rule changes at most one rule. It asks the host nothing, or for the list of the
  -- rules only, or for that list and then for one update, with the percentage or the amount that the
  -- challenge stores, of a rule on that list: the rule whose id the challenge stores or, where it
  -- stores none, the only rule or one that reads as a save rule. A tap that fails the test of the
  -- owner asks the host nothing.
  pub confirm_save_rule-RuleAsks :
      (store : LedgerStore S) (d : Desk) (tap : Tap) (c : Challenge) (t : Site S)
      → RuleAsks d c t.asked (confirm_save_rule store d tap c t).1.asked
        × (is_foreign tap c t.ledger ≡ true → (confirm_save_rule store d tap c t).1.asked ≡ t.asked)
  unfolding confirm_save_rule
  confirm_save_rule-RuleAsks store d tap c t = elim (Bool-cases (is_foreign tap c t.ledger)) [
    | inl f ↦
        rw (f, confirm_save_rule)
          (inl (mismatch-asked store d _ c t), λ h. mismatch-asked store d _ c t)
    | inr f ↦
        rw (f, confirm_save_rule)
          (
            subst (RuleAsks d c t.asked) (sym (save_site-asked store _ _))
                (settle_rule-RuleAsks d c (consumed_site c t)),
            λ h. absurd (cc h),
          )
  ]
