-- ===== src/VoiceTickets.antt =====
-- src/api/voice/tickets.py: `redeem`. The record Verifier stands for jwt.decode with the key of the
-- settings (none when it raises JWTError) and for the TTLCache of spent ids; the claims of a token
-- are strings.
pub mod SingleUse
use delaxis.Prelude.{
  String, ◌==◌, Bool, true, false, not, ◌&&◌, ◌||◌, Option, none, some, if◌then◌else◌,
}

pub record Verifier (S : Type 0) : Type 0 where
  pub decode : String → Option (String → Option String)
  pub has : String → S → Bool
  pub put : String → S → S

pub record Grant : Type 0 where
  pub session_id : String
  pub deployment : Option String
  pub purpose : String

pub data TicketError : Type 0 where
  missing_ticket invalid not_voice no_id already_used unknown_purpose no_session : TicketError

pub data Answer : Type 0 where
  granted : Grant → Answer
  refused : TicketError → Answer

-- `payload.get(k) or default`
unfoldable pub claim_or : Option String → String → String
claim_or none default = default
claim_or (some s) default = if s == "" then default else s

-- `str(payload.get("dep")) or None`: of a missing claim this is the text "None".
unfoldable pub deployment_of : Option String → Option String
deployment_of none = some "None"
deployment_of (some s) = if s == "" then none else some s

unfoldable pub is_purpose : String → Bool
is_purpose p = (p == "session") || (p == "builder")

unfoldable pub is_voice : Option String → Bool
is_voice none = false
is_voice (some s) = s == "voice"

-- The checks after the id is spent.
unfoldable pub grant : (String → Option String) → String → String → Answer
grant payload purpose session_id =
    if not (is_purpose purpose)
    then refused unknown_purpose
    else (if (session_id == "") && (purpose == "session")
        then refused no_session
        else granted (record {
          session_id = session_id;
          deployment = deployment_of (payload "dep");
          purpose = purpose;
        }))

module _ {S : Type 0} (verifier : Verifier S) where
  unfoldable pub spend : (String → Option String) → String → S → S × Answer
  spend payload jti spent =
      if jti == ""
      then (spent, refused no_id)
      else (if verifier.has jti spent then (spent, refused already_used) else (
        verifier.put jti spent,
        grant payload (claim_or (payload "pur") "session") (claim_or (payload "sid") ""),
      ))

  unfoldable pub redeem_payload : Option (String → Option String) → S → S × Answer
  redeem_payload none spent = (spent, refused invalid)
  redeem_payload (some payload) spent =
      if is_voice (payload "typ")
      then spend payload (claim_or (payload "jti") "") spent
      else (spent, refused not_voice)

  unfoldable pub redeem : String → S → S × Answer
  redeem ticket spent =
      if ticket == ""
      then (spent, refused missing_ticket)
      else redeem_payload (verifier.decode ticket) spent
