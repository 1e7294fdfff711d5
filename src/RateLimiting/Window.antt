-- ===== src/RateLimiting/Window.antt =====
-- src/api/rate_limiting.py: `_is_rate_limited` as a sliding window.
use delaxis.Prelude.{
  ℕ, suc, ◌+◌, ◌≤◌, ◌<◌, Bool, true, false, List, [], ◌∷◌, ◌++◌, length, ltb, leb, if◌then◌else◌,
  ◌≡◌, refl, sym, ap, ◌∙◌, arith, Bool-cases, inl, inr,
}
use delaxis.RateLimiting.{Times, clean, record_time, is_rate_limited}

-- How many of the times are less than `window` before `now`, or later.
unfoldable pub recent : ℕ → ℕ → List ℕ → ℕ
recent now window [] = 0
recent now window (v ∷ times) =
    let rest = recent now window times in if ltb now (v + window) then suc rest else rest

pub length-clean : (now w : ℕ) (times : Times) → length (clean now w times) ≡ recent now w times
unfolding clean recent
length-clean now w [] = refl
length-clean now w (v ∷ times) = ground (arith, length-clean now w times)

clean-clean :
    (n n' w : ℕ) (times : Times) → n ≤ n' → clean n' w (clean n w times) ≡ clean n' w times
unfolding clean
clean-clean n n' w [] h = refl
clean-clean n n' w (v ∷ times) h = ground (arith, clean-clean n n' w times h)

clean-append : (n w : ℕ) (xs ys : Times) → clean n w (xs ++ ys) ≡ clean n w xs ++ clean n w ys
unfolding clean
clean-append n w [] ys = refl
clean-append n w (v ∷ xs) ys = ground (arith, clean-append n w xs ys)

recent-later : (n n' w : ℕ) (times : Times) → n ≤ n' → recent n' w times ≤ recent n w times
unfolding recent
recent-later n n' w [] h = omega arith
recent-later n n' w (v ∷ times) h = ground (arith, recent-later n n' w times h)

recent-snoc :
    (n w now : ℕ) (times : Times) → recent n w (times ++ now ∷ []) ≤ suc (recent n w times)
unfolding recent
recent-snoc n w now [] = ground arith
recent-snoc n w now (v ∷ times) = ground (arith, recent-snoc n w now times)

-- All the times lie before n.
abbrev pub IsBefore : ℕ → Times → Type 0
IsBefore n [] = Unit
IsBefore n (v ∷ times) = (v < n) × IsBefore n times

IsBefore-clean : (n now w : ℕ) (times : Times) → IsBefore n times → IsBefore n (clean now w times)
unfolding clean
IsBefore-clean n now w [] b = tt
IsBefore-clean n now w (v ∷ times) b = elim (Bool-cases (ltb now (v + w))) [
  | inl kept ↦ rw kept (b.0, IsBefore-clean n now w times b.1)
  | inr dropped ↦ rw dropped (IsBefore-clean n now w times b.1)
]

IsBefore-later : (n n' : ℕ) (times : Times) → n ≤ n' → IsBefore n times → IsBefore n' times
IsBefore-later n n' [] h b = tt
IsBefore-later n n' (v ∷ times) h b = (omega (arith, h, b.0), IsBefore-later n n' times h b.1)

IsBefore-snoc :
    (n now : ℕ) (times : Times) → now < n → IsBefore n times → IsBefore n (times ++ now ∷ [])
IsBefore-snoc n now [] h b = (h, tt)
IsBefore-snoc n now (v ∷ times) h b = (b.0, IsBefore-snoc n now times h b.1)

-- A clock reading that the store does not have is one entry more.
record_time-fresh :
    (now : ℕ) (times : Times) → IsBefore now times → record_time now times ≡ times ++ now ∷ []
unfolding record_time
record_time-fresh now [] b = refl
record_time-fresh now (v ∷ times) b =
    let rest = record_time-fresh now times b.1 in let h = b.0 in ground (arith, rest, h)

-- The store, and the times of all the requests ever let through, one for each of them.
pub record History : Type 0 where
  pub store : Times
  pub accepted : List ℕ

abbrev pub nothing_seen : History
nothing_seen = record { store = []; accepted = [] }

-- What a history of requests says of one more: it is on the list unless it was refused.
abbrev pub accept : Bool → ℕ → List ℕ → List ℕ
accept true now times = times
accept false now times = times ++ now ∷ []

-- The clock reads more at each request than at the one before, from `n` on, and less than `stop`.
abbrev pub IsOrdered : ℕ → List ℕ → ℕ → Type 0
IsOrdered n [] stop = n ≤ stop
IsOrdered n (now ∷ more) stop = (n ≤ now) × IsOrdered (suc now) more stop

module _ (limit window : ℕ) where
  abbrev pub request : ℕ → History → History
  request now h =
      let checked = is_rate_limited now limit window h.store in
      record { store = checked.0; accepted = accept checked.1 now h.accepted }

  -- Requests one after the other.
  abbrev pub requests : List ℕ → History → History
  requests [] h = h
  requests (now ∷ more) h = requests more (request now h)

  -- From its last request on, which was before `n`, the store knows of all the requests let through in the window.
  pub record InStep (n : ℕ) (h : History) : Type 0 where
    pub agree : (n' : ℕ) → n ≤ suc n' → clean n' window h.store ≡ clean n' window h.accepted
    pub before : IsBefore n h.store
    pub bounded : (n' : ℕ) → n ≤ suc n' → recent n' window h.accepted ≤ limit

  known-recent :
      (n n' : ℕ) (h : History)
      → n ≤ suc n'
      → InStep n h
      → length (clean n' window h.store) ≡ recent n' window h.accepted
  known-recent n n' h later step =
      ap length (step.agree n' later) ∙ length-clean n' window h.accepted

  refuse-InStep :
      (n now : ℕ) (h : History)
      → n ≤ now
      → InStep n h
      → InStep (suc now) (record { store = clean now window h.store; accepted = h.accepted })
  refuse-InStep n now h later step = record {
    agree = λ n' far.
        clean-clean now n' window h.store (omega (arith, far))
        ∙ step.agree n' (omega (arith, later, far));
    before =
        IsBefore-later n (suc now) _ (omega (arith, later))
          (IsBefore-clean n now window h.store step.before);
    bounded = λ n' far. step.bounded n' (omega (arith, later, far));
  }

  admit-InStep :
      (n now : ℕ) (h : History)
      → n ≤ now
      → recent now window h.accepted < limit
      → InStep n h
      → InStep (suc now) (record {
        store = clean now window h.store ++ now ∷ [];
        accepted = h.accepted ++ now ∷ [];
      })
  admit-InStep n now h later room step =
      let refused = refuse-InStep n now h later step in
      record {
        agree = λ n' far.
            clean-append n' window (clean now window h.store) (now ∷ [])
            ∙ (ap (λ l. l ++ clean n' window (now ∷ [])) (refused.agree n' far)
                ∙ sym (clean-append n' window h.accepted (now ∷ [])));
        before = IsBefore-snoc (suc now) now _ (omega arith) refused.before;
        bounded = λ n' far. omega (
          arith,
          recent-snoc n' window now h.accepted,
          recent-later now n' window h.accepted (omega (arith, far)),
          room,
        );
      }

  request-InStep :
      (n now : ℕ) (h : History) → n ≤ now → InStep n h → InStep (suc now) (request now h)
  unfolding is_rate_limited
  request-InStep n now h later step =
      let known = known-recent n now h (omega (arith, later)) step in
      elim (Bool-cases (leb limit (length (clean now window h.store)))) [
        | inl full ↦ rw full (refuse-InStep n now h later step)
        | inr room ↦
            rw
              (
                room,
                record_time-fresh now (clean now window h.store) (
                    IsBefore-later n now _ later (IsBefore-clean n now window h.store step.before)),
              )
              (admit-InStep n now h later (ground (arith, room, known)) step)
      ]

  requests-InStep :
      (n stop : ℕ) (times : List ℕ) (h : History)
      → IsOrdered n times stop
      → InStep n h
      → InStep stop (requests times h)
  requests-InStep n stop [] h ordered step = record {
    agree = λ n' far. step.agree n' (omega (arith, ordered, far));
    before = IsBefore-later n stop h.store ordered step.before;
    bounded = λ n' far. step.bounded n' (omega (arith, ordered, far));
  }
  requests-InStep n stop (now ∷ more) h ordered step =
      requests-InStep (suc now) stop more (request now h) ordered.1
        (request-InStep n now h ordered.0 step)

  nothing_seen-InStep : InStep 0 nothing_seen
  unfolding clean recent
  nothing_seen-InStep = record {
    agree = λ n' far. refl;
    before = tt;
    bounded = λ n' far. omega arith;
  }

  -- However the requests of one identifier come, each at a later reading of the clock than the one before: at any time
  -- from the last request on, of all the requests ever let through at most `limit` lie in the
  -- window that ends then, although the store forgets the times that it cleans away.
  pub requests-bounded :
      (times : List ℕ) (now : ℕ)
      → IsOrdered 0 times (suc now)
      → recent now window (requests times nothing_seen).accepted ≤ limit
  requests-bounded times now ordered =
      (requests-InStep 0 (suc now) times nothing_seen ordered nothing_seen-InStep).bounded now
        (omega arith)

  -- After requests that each came at a later reading of the clock than the one before, a request that does not come before them is
  -- refused exactly when at least `limit` of the requests let through before lie in the window that ends with it.
  pub requests-admits :
      (times : List ℕ) (now : ℕ)
      → IsOrdered 0 times (suc now)
      → (is_rate_limited now limit window (requests times nothing_seen).store).1
        ≡ leb limit (recent now window (requests times nothing_seen).accepted)
  unfolding is_rate_limited
  requests-admits times now ordered =
      let h = requests times nothing_seen in
      let known =
        known-recent (suc now) now h (omega arith)
          (requests-InStep 0 (suc now) times nothing_seen ordered nothing_seen-InStep) in
      elim (Bool-cases (leb limit (length (clean now window h.store)))) [
        | inl full ↦ rw full (sym (ap (leb limit) (sym known) ∙ full))
        | inr room ↦ rw room (sym (ap (leb limit) (sym known) ∙ room))
      ]
