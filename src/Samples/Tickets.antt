-- ===== src/Samples/Tickets.antt =====
-- Tickets whose text is the session that they are for.
use delaxis.Prelude.{
  String, ◌==◌, List, [], Option, none, some, true, contains, add, if◌then◌else◌, ◌≡◌, refl, arith,
  str_eq_iff, contains-add,
}
use delaxis.VoiceTickets.{
  Verifier, Grant, granted, refused, already_used, claim_or, deployment_of, is_purpose, is_voice,
  grant, spend, redeem_payload, redeem,
}
use delaxis.VoiceTickets.SingleUse.{IsGranted, redeem-single_use}

abbrev claims : String → String → Option String
claims ticket key =
    if key == "typ"
    then some "voice"
    else if key == "pur"
    then some "session"
    else if key == "dep"
    then none
    else some ticket

abbrev verifier : Verifier (List String)
verifier = record { decode = λ ticket. some (claims ticket); has = contains; put = add }

put-known : (j : String) (s : List String) → contains j (add j s) ≡ true
put-known j s = ground (arith, contains-add j j s, str_eq_iff j j)

abbrev s1 : Grant
s1 = record { session_id = "s1"; deployment = some "None"; purpose = "session" }

redeem-s1 : (redeem verifier "s1" []).1 ≡ granted s1
unfolding redeem redeem_payload spend grant claim_or deployment_of is_purpose is_voice contains add
redeem-s1 = refl

redeem-single_use_example :
    IsGranted s1 × ((redeem verifier "s1" (redeem verifier "s1" []).0).1 ≡ refused already_used)
redeem-single_use_example = redeem-single_use verifier put-known "s1" [] redeem-s1
