-- ===== src/FundingCalls.antt =====
-- miriam_agent/hands/funding.py: the writes to the host for buying crypto with naira, and for the code of
-- the recipient. The parsers of utterances are left out.
use miriam.Prelude.{String, pos, leb_ℤ, Bool, ◌&&◌, ◌||◌, not, List, [], ◌∷◌, str_eq, if◌then◌else◌}
use miriam.Decimal.{Decimal}
use miriam.Audit.{
  Reason, bad_amount, no_go_token, paj_initiate_failed, onramp_failed, bad_rail,
  paj_verification_required, paj_verify_failed, bad_otp_format,
}
use miriam.Settlement.{or_text}
use miriam.Host.{
  Reply, Answer, replied, paj_initiate_session, paj_verify_otp, funding_create_onramp, Desk, Site,
  first_text, ask_host,
}

-- what a write gives back: `{"ok": True, "raw": ...}`, or `{"ok": False, "reasons": ...}`
pub data Written : Type 0 where
  fine : Reply → Written
  refused : List Reason → Written

abbrev initiated : Answer → Written
initiated (replied r) = fine r
initiated _ = refused (paj_initiate_failed ∷ [])

abbrev pub created : Answer → Written
created (replied r) = fine r
created _ = refused (onramp_failed ∷ [])

-- `str(raw.get("status") or "").lower()`
unfoldable pub status_of : Desk → Reply → String
unfolding first_text
status_of d r = d.words.lower (first_text d.words ("status" ∷ []) r)

abbrev pub verified_by : Desk → Answer → Written
verified_by d (replied r) =
    if str_eq (status_of d r) "verified" then fine r else refused (paj_verify_failed ∷ [])
verified_by d _ = refused (paj_verify_failed ∷ [])

module _ {S : Type 0} where
  -- `initiate_paj_session`
  unfoldable pub initiate_paj : Desk → String → String → Site S → Written × Site S
  unfolding ask_host
  initiate_paj d key confirm_id t =
      if str_eq d.token ""
      then (refused (no_go_token ∷ []), t)
      else (let (a, t') = ask_host d (paj_initiate_session key confirm_id) t in (initiated a, t'))

  -- `verify_paj_otp`
  unfoldable pub verify_otp : Desk → String → String → String → Site S → Written × Site S
  unfolding ask_host status_of
  verify_otp d otp key confirm_id t =
      if str_eq d.token ""
      then (refused (no_go_token ∷ []), t)
      else if not (d.words.is_code (d.words.strip otp))
      then (refused (bad_otp_format ∷ []), t)
      else (let (a, t') = ask_host d (paj_verify_otp (d.words.strip otp) key confirm_id) t in
          (verified_by d a, t'))

  -- `create_onramp`
  unfoldable pub create_onramp :
      Desk → String → Decimal → Bool → String → String → Site S → Written × Site S
  unfolding ask_host
  create_onramp d kind amount verified key confirm_id t =
      let rail = d.words.lower (or_text kind "paj") in
      if not (str_eq rail "paj" || str_eq rail "ramp")
      then (refused (bad_rail ∷ []), t)
      else if str_eq d.token ""
      then (refused (no_go_token ∷ []), t)
      else if leb_ℤ amount.coef (pos 0)
      then (refused (bad_amount ∷ []), t)
      else if str_eq rail "paj" && not verified
      then (refused (paj_verification_required ∷ []), t)
      else (let (a, t') = ask_host d (funding_create_onramp rail amount key confirm_id) t in
          (created a, t'))
