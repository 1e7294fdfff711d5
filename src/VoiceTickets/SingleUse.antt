-- ===== src/VoiceTickets/SingleUse.antt =====
-- src/api/voice/tickets.py: a ticket is granted once.
use delaxis.Prelude.{
  String, ◌==◌, true, ◌&&◌, Option, none, some, ◌≡◌, ◌≢◌, subst, ◌∙◌, arith, str_eq_iff, Bool-cases,
  inl, inr,
}
use delaxis.VoiceTickets.{
  Verifier, Grant, granted, refused, already_used, claim_or, is_purpose, is_voice, grant, spend,
  redeem_payload, redeem,
}

-- What a grant promises.
pub record IsGranted (g : Grant) : Type 0 where
  pub known_purpose : is_purpose g.purpose ≡ true
  pub has_session : g.purpose ≡ "session" → g.session_id ≢ ""

grant-IsGranted :
    (payload : String → Option String) (purpose session_id : String) {g : Grant}
    → grant payload purpose session_id ≡ granted g
    → IsGranted g
unfolding grant
grant-IsGranted payload purpose session_id {g} e = elim (Bool-cases (is_purpose purpose)) [
  | inr unknown ↦ let never = (rw unknown at e) in cc
  | inl known ↦ elim (Bool-cases ((session_id == "") && (purpose == "session"))) [
    | inl bare ↦ let never = (rw (known, bare) at e) in cc
    | inr fine ↦
        let same = rw (known, fine) at e in
        let same_purpose : purpose ≡ g.purpose = cc in
        let same_session : session_id ≡ g.session_id = cc in
        record {
          known_purpose = subst (λ p. is_purpose p ≡ true) same_purpose known;
          has_session = λ p empty. ground (
            arith,
            fine,
            str_eq_iff session_id "",
            str_eq_iff purpose "session",
            same_purpose ∙ p,
            same_session ∙ empty,
          );
        }
  ]
]

module _ {S : Type 0} (verifier : Verifier S)
    (kept : (j : String) (s : S) → verifier.has j (verifier.put j s) ≡ true) where
  spend-twice :
      (payload : String → Option String) (jti : String) (spent : S) {g : Grant}
      → (spend verifier payload jti spent).1 ≡ granted g
      → IsGranted g
        × ((spend verifier payload jti (spend verifier payload jti spent).0).1
            ≡ refused already_used)
  unfolding spend
  spend-twice payload jti spent {g} e = elim (Bool-cases (jti == "")) [
    | inl empty ↦ let never = (rw empty at e) in cc
    | inr id ↦ elim (Bool-cases (verifier.has jti spent)) [
      | inl used ↦ let never = (rw (id, used) at e) in cc
      | inr unused ↦ (
        grant-IsGranted payload (claim_or (payload "pur") "session") (claim_or (payload "sid") "")
            (rw (id, unused) at e),
        rw (id, unused, kept),
      )
    ]
  ]

  payload-twice :
      (payload : Option (String → Option String)) (spent : S) {g : Grant}
      → (redeem_payload verifier payload spent).1 ≡ granted g
      → IsGranted g
        × ((redeem_payload verifier payload (redeem_payload verifier payload spent).0).1
            ≡ refused already_used)
  unfolding redeem_payload
  payload-twice none spent e = cc
  payload-twice (some payload) spent e = elim (Bool-cases (is_voice (payload "typ"))) [
    | inl voice ↦ rw voice (spend-twice payload (claim_or (payload "jti") "") spent (rw voice at e))
    | inr other ↦ let never = (rw other at e) in cc
  ]

-- If the cache of spent ids knows an id right after it is put there, then a ticket that redeem
-- grants has a known purpose, has a session when the purpose is "session", and is refused as already
-- used when it is redeemed again right after.
pub redeem-single_use :
    {S : Type 0} (verifier : Verifier S)
    → ((j : String) (s : S) → verifier.has j (verifier.put j s) ≡ true)
    → (ticket : String) (spent : S) {g : Grant} → (redeem verifier ticket spent).1 ≡ granted g
    → IsGranted g
      × ((redeem verifier ticket (redeem verifier ticket spent).0).1 ≡ refused already_used)
unfolding redeem
redeem-single_use verifier kept ticket spent e = elim (Bool-cases (ticket == "")) [
  | inl empty ↦ let never = (rw empty at e) in cc
  | inr given ↦
      rw given (payload-twice verifier kept (verifier.decode ticket) spent (rw given at e))
]
