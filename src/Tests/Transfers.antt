-- ===== src/Tests/Transfers.antt =====
-- Runs of `execute_transfer`, of the journal and of the ledger stores.
use miriam.Prelude.{
  ◌≡◌, ◌≢◌, refl, arith, ℕ, ◌≤◌, ◌<◌, String, ℤ, pos, Bool, true, false, Option, none, some, List,
  [], ◌∷◌, lookup,
}
use miriam.Ledger.{Ledger, ok, err, Error, balance}
use miriam.Limits.{evaluate_limits}
use miriam.Journal.{Row, confirmed, dispatched, failed, is_terminal}
use miriam.Journal.Once.{
  Call, claim, mark, wins, wins-le-one, Settled, replay_calls, Settled-IsFinal,
}
use miriam.Store.Memory.{memory_store, save, load}
use miriam.Store.Race.{run, commits, stale_save-IsRefused}
use miriam.Transfer.{
  Request, execute_request, request_key, check_limits, instruction, limits_of, booked,
}
use miriam.Transfer.Once.{Attempt}
use miriam.Transfer.Money.{PaysOrKeeps, execute_request-PaysOrKeeps}
use miriam.Transfer.Retry.{spendable_send-IsBooked, short_sleeve-IsSent}
use miriam.Tests.Data.{
  env, utc, policy, ledger, stored, rail, no_faults, send_twenty, approved, state_of, request,
  world,
}

abbrev first_attempt : Attempt
first_attempt = record {
  env = env;
  faults = no_faults;
  zone = utc;
  policy = policy;
  rail = rail;
  state = state_of approved;
  ledger = ledger;
}

abbrev key : String
key = request_key (request approved send_twenty)

execute_request-PaysOrKeeps_example :
    PaysOrKeeps memory_store
      (request approved send_twenty)
      world
      (execute_request memory_store (request approved send_twenty) world).1
execute_request-PaysOrKeeps_example =
    execute_request-PaysOrKeeps memory_store (request approved send_twenty) world

spendable_send-IsBooked_example :
    (booked memory_store (request approved send_twenty) (pos 2000) "rail_7" ledger).0 ≡ ok tt
unfolding limits_of evaluate_limits miriam.Limits.is_locked miriam.Limits.free_after_obligations
    miriam.Prelude.◌-ℤ◌ balance lookup miriam.Prelude.◌+ℤ◌ miriam.Limits.daily_usage
    miriam.Limits.settled_outbound_since miriam.Limits.reserved_outbound miriam.Limits.weekly_usage
    miriam.Limits.mutations_in_window
spendable_send-IsBooked_example =
    spendable_send-IsBooked memory_store (request approved send_twenty) (pos 2000) "rail_7" ledger
      refl refl

-- the send of 20.00 out of the savings, which hold 10.00
abbrev from_savings : Request
from_savings = request approved (record send_twenty { sleeve = "savings" })

short_sleeve-IsSent_example :
    let i = instruction memory_store from_savings (pos 2000) ledger in
    let w = (check_limits memory_store from_savings (pos 2000) world).1 in
    (w.calls ≡ i ∷ []) × (w.reversals ≡ "rail_7" ∷ [])
unfolding limits_of evaluate_limits balance miriam.Limits.is_locked
    miriam.Limits.free_after_obligations miriam.Prelude.◌-ℤ◌ lookup miriam.Prelude.◌+ℤ◌
    miriam.Limits.daily_usage miriam.Limits.settled_outbound_since miriam.Limits.reserved_outbound
    miriam.Limits.weekly_usage miriam.Limits.mutations_in_window
short_sleeve-IsSent_example =
    short_sleeve-IsSent memory_store from_savings (pos 2000) world refl (omega arith) refl

abbrev settled_row : Row
settled_row = record { status = confirmed; rail_reference = "rail_7"; user_id = "ada" }

abbrev calls : List Call
calls =
    claim "k" "ada"
    ∷ mark dispatched "" "k"
    ∷ claim "k" "ada"
    ∷ mark failed "" "k"
    ∷ claim "k" "bob"
    ∷ []

wins-le-one_example : wins "k" calls [] ≤ 1
wins-le-one_example = wins-le-one "k" calls []

Settled-IsFinal_example : Settled "k" settled_row (replay_calls calls (("k", settled_row) ∷ []))
unfolding is_terminal lookup
Settled-IsFinal_example =
    Settled-IsFinal "k" settled_row calls (("k", settled_row) ∷ []) (refl, refl)

-- Another worker has saved the ledger twice in between; its second save carries the bumped version.
abbrev saves : List Ledger
saves = ledger ∷ (record ledger { version = 4 }) ∷ []

stale_save-IsRefused_example :
    (e : Error) × (save ledger (run memory_store saves stored)
      ≡ (err e, run memory_store saves stored))
unfolding load commits save lookup
stale_save-IsRefused_example =
    stale_save-IsRefused memory_store ledger saves stored {l₀ = ledger} refl refl (omega arith)
