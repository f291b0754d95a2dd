-- ===== src/Replays.antt =====
-- `_obtain_and_replay` of miriam_agent/hands/invest_funding.py: a call that the host stages, and its replay
-- with the token that the host has issued.
use miriam.Prelude.{String, Option, none, some, [], ◌∷◌, lookup, str_eq, if◌then◌else◌}
use miriam.Host.{
  text, Value, leaf, Reply, Answer, replied, Request, Desk, Site, first_text, nested, ask_host,
}

-- what `_obtain_and_replay` returns, where it does not raise
abbrev completed : Answer → Option Reply
completed (replied r) = some r
completed _ = none

abbrev pub awaiting : String
awaiting = "AWAITING_CONFIRMATION"

-- a token that is a text
abbrev token_text : Option Value → String
token_text (some (leaf (text s))) = s
token_text _ = ""

unfoldable pub token_of : Reply → String
unfolding nested
token_of r = token_text (lookup "token" (nested "confirmation" r))

abbrev pub status_of : Desk → Reply → String
status_of d r = first_text d.words ("status" ∷ []) r

module _ {S : Type 0} where
  -- the replay carries the token, with the payload as it was
  unfoldable pub replay_with :
      Desk → (Option String → Request) → Reply → Site S → Option Reply × Site S
  unfolding ask_host first_text
  replay_with d call first t =
      if str_eq (status_of d first) awaiting
      then (if str_eq (d.words.strip (token_of first)) ""
          then (none, t)
          else (let (a, t') = ask_host d (call (some (token_of first))) t in (completed a, t')))
      else (some first, t)

  unfoldable pub after_stage :
      Desk → (Option String → Request) → Answer → Site S → Option Reply × Site S
  after_stage d call (replied first) t = replay_with d call first t
  after_stage d call _ t = (none, t)

  -- `_obtain_and_replay`
  unfoldable pub obtain_and_replay :
      Desk → (Option String → Request) → Site S → Option Reply × Site S
  unfolding ask_host
  obtain_and_replay d call t = let (a, t') = ask_host d (call none) t in after_stage d call a t'
