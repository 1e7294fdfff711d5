-- ===== src/RateLimiting/Entries.antt =====
-- src/api/rate_limiting.py: the times that `_is_rate_limited` leaves in the store.
use delaxis.Prelude.{
  ℕ, ◌+◌, ◌≤◌, ◌<◌, Bool, true, false, [], ◌∷◌, length, In, ltb, leb, nat_eq, nat_eq_iff, ◌≡◌, ◌↔◌,
  ◌⊎◌, sym, ◌∙◌, arith, Bool-cases, inl, inr, ltb→lt,
}
use delaxis.RateLimiting.{Times, clean, record_time, is_rate_limited}
use delaxis.RateLimiting.Window.{recent, length-clean}

-- Of the times before, those in the window that ends now are left.
pub IsCleaned : ℕ → ℕ → Times → Times → Type 0
IsCleaned now window before after = (v : ℕ) → In v after ↔ (In v before × (now < v + window))

-- Those are left, and the time of the request is recorded.
pub IsRecorded : ℕ → ℕ → Times → Times → Type 0
IsRecorded now window before after =
    (v : ℕ) → In v after ↔ ((In v before × (now < v + window)) ⊎ (v ≡ now))

clean-In :
    (now w : ℕ) (times : Times) (v : ℕ) → In v (clean now w times) ↔ (In v times × (now < v + w))
unfolding clean
clean-In now w [] v = (λ m. absurd m, λ m. absurd m.0)
clean-In now w (u ∷ times) v =
    let rest = clean-In now w times v in
    elim (Bool-cases (ltb now (u + w))) [
      | inl kept ↦ rw kept (
        λ m. elim m [
          | inl same ↦ (inl same, omega (arith, same, ltb→lt now (u + w) kept))
          | inr later ↦ let found = rest.0 later in (inr found.0, found.1)
        ],
        λ m. elim m.0 [ inl same ↦ inl same | inr later ↦ inr (rest.1 (later, m.1)) ],
      )
      | inr dropped ↦ rw dropped (
        λ m. let found = rest.0 m in (inr found.0, found.1),
        λ m. elim m.0 [
          | inl same ↦ absurd (ground (arith, dropped, same, m.1))
          | inr later ↦ rest.1 (later, m.1)
        ],
      )
    ]

record_time-In :
    (now : ℕ) (times : Times) (v : ℕ) → In v (record_time now times) ↔ (In v times ⊎ (v ≡ now))
unfolding record_time
record_time-In now [] v = (
  λ m. elim m [ inl same ↦ inr same | inr never ↦ absurd never ],
  λ m. elim m [ inl never ↦ absurd never | inr same ↦ inl same ],
)
record_time-In now (u ∷ times) v =
    let rest = record_time-In now times v in
    elim (Bool-cases (nat_eq u now)) [
      | inl here ↦ rw here (
        λ m. inl m,
        λ m. elim m [ inl there ↦ there | inr same ↦ inl (same ∙ sym ((nat_eq_iff u now).0 here)) ],
      )
      | inr other ↦ rw other (
        λ m. elim m [
          | inl same ↦ inl (inl same)
          | inr later ↦ elim (rest.0 later) [ inl there ↦ inl (inr there) | inr same ↦ inr same ]
        ],
        λ m. elim m [
          | inl there ↦ elim there [ inl same ↦ inl same | inr later ↦ inr (rest.1 (inl later)) ]
          | inr same ↦ inr (rest.1 (inr same))
        ],
      )
    ]

-- A full window refuses the request and is only cleaned; any other records it.
unfoldable pub Judged : ℕ → ℕ → ℕ → Times → Times × Bool → Type 0
Judged now limit window before (after, true) =
    (limit ≤ recent now window before) × IsCleaned now window before after
Judged now limit window before (after, false) =
    (recent now window before < limit) × IsRecorded now window before after

pub is_rate_limited-Judged :
    (now limit window : ℕ) (times : Times)
    → Judged now limit window times (is_rate_limited now limit window times)
unfolding is_rate_limited Judged IsCleaned IsRecorded
is_rate_limited-Judged now limit window times =
    let many = length-clean now window times in
    let kept = clean-In now window times in
    elim (Bool-cases (leb limit (length (clean now window times)))) [
      | inl full ↦ rw full (ground (arith, full, many), kept)
      | inr room ↦ rw room (
        ground (arith, room, many),
        λ v.
            let recorded = record_time-In now (clean now window times) v in
            (
              λ m. elim (recorded.0 m) [ inl there ↦ inl ((kept v).0 there) | inr same ↦ inr same ],
              λ m. recorded.1 (elim m [ inl there ↦ inl ((kept v).1 there) | inr same ↦ inr same ]),
            ),
      )
    ]
