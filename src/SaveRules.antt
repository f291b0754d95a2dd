-- ===== src/SaveRules.antt =====
-- The save rule: `select_save_automation` of miriam_agent/hands/save_rule.py, and what
-- `_handle_confirm_save_rule` of miriam_agent/hands/settle_legs.py does at the host before it saves.
use miriam.Prelude.{
  String, Bool, true, false, ◌||◌, Option, none, some, List, [], ◌∷◌, str_eq, if◌then◌else◌,
}
use Prim.Native.String.{◌++◌ as join}
use miriam.Audit.{
  Receipt, executed, Reason, automations_unreachable, no_save_rule, save_rule_update_failed,
  save_rule_unbound,
}
use miriam.Ledger.{Ledger, Challenge}
use miriam.Settlement.{or_text}
use miriam.Host.{
  Reply, Answer, listed, raised, cooling_down, list_automations, update_automation, Words, Desk,
  Site, first_text, ask_host, host_receipt, leg_receipt,
}
use miriam.Funding.{meta_text}

-- `select_save_automation`
abbrev pub id_of : Words → Reply → String
id_of w a = first_text w ("id" ∷ "automation_id" ∷ []) a

unfoldable pub with_id : Words → String → List Reply → Option Reply
with_id w id [] = none
with_id w id (a ∷ as') = if str_eq (id_of w a) id then some a else with_id w id as'

abbrev haystack : Words → Reply → String
haystack w a =
    let part = λ (k : String). first_text w (k ∷ []) a in
    w.lower (
      join (part "type") (
        join " " (
          join (part "name") (
            join " " (
              join (part "trigger_type")
                (join " " (join (part "action_type") (join " " (part "description")))))))))

unfoldable pub reads_as_rule : Words → Reply → Bool
unfolding first_text
reads_as_rule w a =
    w.contains "sweep" (haystack w a)
    || (w.contains "save" (haystack w a)
        || (w.contains "stash" (haystack w a)
            || (w.contains "inflow" (haystack w a) || w.contains "park" (haystack w a))))

unfoldable pub first_rule : Words → List Reply → Option Reply
unfolding reads_as_rule
first_rule w [] = none
first_rule w (a ∷ as') = if reads_as_rule w a then some a else first_rule w as'

abbrev pub only_or_first : Words → List Reply → Option Reply
only_or_first w (a ∷ []) = some a
only_or_first w as' = first_rule w as'

unfoldable pub select_save_automation : Words → String → List Reply → Option Reply
select_save_automation w id as' = if str_eq id "" then only_or_first w as' else with_id w id as'

abbrev pub listed_rows : Answer → List Reply
listed_rows (listed as') = as'
listed_rows _ = []

abbrev pub is_raised : Answer → Bool
is_raised raised = true
is_raised (cooling_down _) = true
is_raised _ = false

-- the receipt of a save rule that is updated
abbrev rule_receipt : Desk → Challenge → Ledger → Receipt
rule_receipt d c l =
    record (host_receipt d.env l executed "save_rule_update" (some c.amount) c.counterparty c.sleeve
      c.decision_id (join "save-rule:" c.id) []) {
        id = join "rcpt_save_rule_" c.id;
        sleeves_before = [];
        sleeves_after = [];
        confirm_id = c.id;
      }

abbrev rule_refused : Desk → Challenge → Reason → Ledger → Receipt
rule_refused d c reason l = leg_receipt d c "save_rule_update" reason l

abbrev pub percentage_of : Desk → Challenge → String
percentage_of d c = d.words.strip (meta_text "percentage" c)

abbrev pub amount_of : Desk → Challenge → String
amount_of d c = d.words.strip (meta_text "amount" c)

abbrev pub automation_of : Desk → Challenge → String
automation_of d c = d.words.strip (meta_text "automation_id" c)

unfoldable pub update_rule :
    {S : Type 0} → Desk → Challenge → Option Reply → Site S → Receipt × Site S
unfolding ask_host first_text
update_rule d c none t = (rule_refused d c no_save_rule t.ledger, t)
update_rule d c (some a) t =
    let key = if str_eq (percentage_of d c) "" then "amount" else "percentage" in
    let value = or_text (percentage_of d c) (amount_of d c) in
    let (b, t') = ask_host d (update_automation (id_of d.words a) key value) t in
    (
      if is_raised b
          then rule_refused d c save_rule_update_failed t'.ledger
          else rule_receipt d c t'.ledger,
      t',
    )

-- the receipt of the save rule, before it is remembered
unfoldable pub settle_rule : {S : Type 0} → Desk → Challenge → Site S → Receipt × Site S
unfolding ask_host
settle_rule d c t =
    if str_eq d.token "" || str_eq (or_text (percentage_of d c) (amount_of d c)) ""
    then (rule_refused d c save_rule_unbound t.ledger, t)
    else (let (a, t') = ask_host d list_automations t in
        if is_raised a
        then (rule_refused d c automations_unreachable t'.ledger, t')
        else update_rule d c (select_save_automation d.words (automation_of d c) (listed_rows a))
            t')
