-- ===== src/Tests/Hosts.antt =====
-- Runs of the legs that settle at the Go host.
use miriam.Prelude.{
  ◌≡◌, ◌⊎◌, Bool, true, false, String, some, none, List, Dict, [], ◌∷◌, leb_ℤ, pos,
}
use miriam.Ledger.{Challenge, receipt_for}
use miriam.Store.Memory.{MemoryState, memory_store}
use miriam.Settlement.{is_foreign}
use miriam.Host.{
  Leaf, text, leaf, fields, rows, Answer, replied, listed, Request, get_crypto_quote,
  paj_verify_otp, funding_create_onramp, detect_network, pay_bill, list_automations,
  list_strategies, search_assets, create_order, Words, Desk, Site,
}
use miriam.Host.Frames.{SameMoney}
use miriam.Funding.{submit_paj_otp}
use miriam.Funding.Codes.{AsksWithCode, submit_paj_otp-AsksWithCode}
use miriam.Bills.{confirm_bill}
use miriam.Bills.Paid.{BillAsks, Closed, confirm_bill-Asks}
use miriam.Orders.{Order, order_key, is_side, cents_of, prepare_order}
use miriam.Orders.Asked.{creates, OrderAsks, prepare_order-Asks}
use miriam.Legs.{
  Hall, confirm_funding, confirm_rebalance, confirm_order, confirm_offramp, confirm_save_rule,
  funding_otp, handle_tap,
}
use miriam.Legs.Funds.{legs-SameMoney}
use miriam.Legs.Onramps.{OwnOrder, confirm_funding-OwnOrder}
use miriam.Legs.Rules.{RuleAsks, confirm_save_rule-RuleAsks}
use miriam.Legs.Gate.{LegIsRun, handle_tap-AsksGated}
use miriam.Tests.Data.{env, ledger, twenty, world}
use miriam.Tests.Taps.{hands, challenge, the_tap}

abbrev words : Words
words = record {
  strip = λ s. s;
  lower = λ s. s;
  upper = λ s. s;
  print = λ v. "";
  is_code = λ s. true;
  contains = λ part s. true;
  strip_x = λ s. s;
  is_caip19 = λ s. true;
}

-- the sleeve and the asset that the host lists
abbrev sleeve : Dict Leaf
sleeve =
    ("name", text "rail stock sleeve") ∷ ("id", text "s1") ∷ ("glider_strategy_id", text "g1") ∷ []

abbrev apple : Dict Leaf
apple = ("symbol", text "AAPL") ∷ ("asset_id", text "a1") ∷ []

-- a host that quotes, knows the code, pays bills and lists one rule
abbrev pub answers : List Request → Request → Answer
answers before (get_crypto_quote amount) = replied (("rate", leaf (text "1500")) ∷ [])
answers before (paj_verify_otp id otp key) = replied (("status", leaf (text "verified")) ∷ [])
answers before (funding_create_onramp rail amount key id) = replied (
    ("accountNumber", leaf (text "0123456789"))
    ∷ ("bank", leaf (text "GTB"))
    ∷ ("orderId", leaf (text "o2"))
    ∷ [])
answers before (detect_network recipient) = replied (("network", leaf (text "mtn")) ∷ [])
answers before (pay_bill category recipient amount network key) =
    replied (("status", leaf (text "paid")) ∷ [])
answers before list_automations = listed ((("id", leaf (text "auto_1")) ∷ []) ∷ [])
answers before list_strategies = replied (("strategies", rows (some sleeve ∷ [])) ∷ [])
answers before search_assets = replied (("assets", rows (some apple ∷ [])) ∷ [])
answers before (create_order side strategy asset amount none) = replied (
    ("status", leaf (text "AWAITING_CONFIRMATION"))
    ∷ ("confirmation", fields (("token", text "go") ∷ []))
    ∷ [])
answers before (create_order side strategy asset amount (some token)) =
    replied (("status", leaf (text "filled")) ∷ ("order_id", leaf (text "o1")) ∷ [])
answers before _ = replied (("status", leaf (text "ok")) ∷ [])

abbrev pub desk : Desk
desk = record { env = env; host = answers; token = "tok"; words = words; suffix = "abcd" }

abbrev pub site : Site MemoryState
site = record { ledger = ledger; store = world.store; asked = [] }

abbrev pub challenge_for : String → Challenge
challenge_for action = record challenge { action = action; meta = ("percentage", "15") ∷ [] }

submit_paj_otp-AsksWithCode_example :
    AsksWithCode memory_store desk
      (challenge_for "paj_otp")
      "123456"
      site
      (submit_paj_otp memory_store desk (challenge_for "paj_otp") "123456" site)
submit_paj_otp-AsksWithCode_example =
    submit_paj_otp-AsksWithCode memory_store desk (challenge_for "paj_otp") "123456" site

confirm_bill-Asks_example :
    let r = confirm_bill memory_store desk (challenge_for "bill") site in
    (paid : Bool) × BillAsks desk (challenge_for "bill") site paid r.1.asked
    × Closed desk (challenge_for "bill") paid r.1.ledger
confirm_bill-Asks_example = confirm_bill-Asks desk (challenge_for "bill") memory_store site

abbrev sale : Order
sale = record { side = "sell"; symbol = "AAPL"; amount = twenty; decision_id = "dec_1" }

prepare_order-Asks_example :
    (creates (prepare_order memory_store desk sale site).1.asked ≡ creates [])
    ⊎ ((receipt_for (order_key desk sale) env.at ledger ≡ none)
        × (is_side memory_store desk sale "sell" ≡ true)
        × (leb_ℤ (cents_of sale) (pos 0) ≡ false)
        × OrderAsks memory_store desk sale
            (creates [])
            ledger
            (prepare_order memory_store desk sale site).1.asked)
prepare_order-Asks_example = prepare_order-Asks memory_store desk sale site

legs-SameMoney_example :
    SameMoney ledger (confirm_funding memory_store desk the_tap challenge site).1.ledger
    × SameMoney ledger (confirm_rebalance memory_store desk the_tap challenge site).1.ledger
    × SameMoney ledger (confirm_order memory_store desk the_tap challenge site).1.ledger
    × SameMoney ledger (confirm_offramp memory_store desk the_tap challenge site).1.ledger
    × SameMoney ledger (confirm_save_rule memory_store desk the_tap challenge site).1.ledger
    × SameMoney ledger (confirm_bill memory_store desk challenge site).1.ledger
    × SameMoney ledger (funding_otp memory_store desk challenge "123456" site).1.ledger
legs-SameMoney_example = legs-SameMoney memory_store desk the_tap challenge "123456" site

confirm_funding-OwnOrder_example :
    OwnOrder desk the_tap
      (challenge_for "onramp")
      site
      (confirm_funding memory_store desk the_tap (challenge_for "onramp") site).1.asked
confirm_funding-OwnOrder_example =
    confirm_funding-OwnOrder memory_store desk the_tap (challenge_for "onramp") site

confirm_save_rule-RuleAsks_example :
    let c = challenge_for "save_rule" in
    let r = confirm_save_rule memory_store desk the_tap c site in
    RuleAsks desk c [] r.1.asked × (is_foreign the_tap c ledger ≡ true → r.1.asked ≡ [])
confirm_save_rule-RuleAsks_example =
    confirm_save_rule-RuleAsks memory_store desk the_tap (challenge_for "save_rule") site

-- the tap of an onramp
abbrev hall : Hall MemoryState
hall = record {
  world = record world {
    ledger = record ledger { challenges = ("confirm_1", challenge_for "onramp") ∷ [] };
  };
  asked = [];
}

handle_tap-AsksGated_example :
    let r = handle_tap memory_store hands desk the_tap hall in
    (r.1.asked ≡ []) ⊎ LegIsRun memory_store hands desk the_tap hall r
handle_tap-AsksGated_example = handle_tap-AsksGated memory_store hands desk the_tap hall
