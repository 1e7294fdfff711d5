-- ===== src/RateLimiting/Admission.antt =====
-- src/api/rate_limiting.py: which requests the middleware answers how.
use text.Mathlib.Text.{starts_with}
use text.Mathlib.TextEquality.{starts_with_iff}
use Prim.Native.String.{◌++◌ as ◌+++◌}
use delaxis.Prelude.{
  if◌then◌else◌, ◌||◌, ℕ, ◌*◌, ◌≤◌, ◌<◌, String, ◌==◌, Bool, true, false, ◌≡◌, ◌↔◌, ◌⊎◌, refl,
  arith, Bool-cases, inl, inr, str_eq_iff,
}
use delaxis.RateLimiting.{
  Times, Limits, Settings, Request, Response, passed_on, too_many_requests, CallerTimes, is_read,
  limits_for, is_exempt, after_minute, call,
}
use delaxis.RateLimiting.Window.{recent}
use delaxis.RateLimiting.Entries.{IsCleaned, IsRecorded, Judged, is_rate_limited-Judged}

-- The paths that are not limited: the checks of health, the metrics, and all that begins with /static.
pub IsExempt : String → Type 0
IsExempt path =
    (path ≡ "/health") ⊎ (path ≡ "/metrics") ⊎ ((rest : String) × ("/static" +++ rest ≡ path))

pub IsRead : String → Type 0
IsRead method = (method ≡ "GET") ⊎ (method ≡ "HEAD") ⊎ (method ≡ "OPTIONS")

-- The limits of the kind of request: one of a reading method, else of a caller with an API key, else any other.
pub AreLimits : Settings → Request → Bool → Limits → Type 0
AreLimits s r has_api_key limits =
    (IsRead r.method × (limits ≡ s.read))
    ⊎ (¬ IsRead r.method × (has_api_key ≡ true) × (limits ≡ s.api_key))
    ⊎ (¬ IsRead r.method × (has_api_key ≡ false) × (limits ≡ s.regular))

-- What the caller's entries and the answer are after a request that is limited, by whether the minute or the hour was full.
pub Limited : ℕ → ℕ → Limits → CallerTimes → CallerTimes × Response → Type 0
Limited second now limits caller result =
    ((limits.per_minute ≤ recent now (60 * second) caller.minute)
      × (result.1 ≡ too_many_requests limits.per_minute 60)
      × IsCleaned now (60 * second) caller.minute result.0.minute
      × (result.0.hour ≡ caller.hour))
    ⊎ ((recent now (60 * second) caller.minute < limits.per_minute)
        × IsRecorded now (60 * second) caller.minute result.0.minute
        × (((limits.per_hour ≤ recent now (3600 * second) caller.hour)
              × (result.1 ≡ too_many_requests limits.per_hour 3600)
              × IsCleaned now (3600 * second) caller.hour result.0.hour)
            ⊎ ((recent now (3600 * second) caller.hour < limits.per_hour)
                × (result.1 ≡ passed_on)
                × IsRecorded now (3600 * second) caller.hour result.0.hour)))

pub Answered : ℕ → Settings → ℕ → Request → Bool → CallerTimes → CallerTimes × Response → Type 0
Answered second s now r has_api_key caller result =
    (IsExempt r.path × (result.0 ≡ caller) × (result.1 ≡ passed_on))
    ⊎ (¬ IsExempt r.path
        × ((limits : Limits) × AreLimits s r has_api_key limits
            × Limited second now limits caller result))

or_split : (a b : Bool) → (a || b) ≡ true → (a ≡ true) ⊎ (b ≡ true)
or_split true b e = inl refl
or_split false b e = inr e

or_iff₃ :
    {P Q R : Type 0} (a b c : Bool)
    → ((a ≡ true) ↔ P)
    → ((b ≡ true) ↔ Q)
    → ((c ≡ true) ↔ R)
    → ((a || b || c) ≡ true) ↔ (P ⊎ Q ⊎ R)
or_iff₃ a b c f g h = (
  λ e. elim (or_split (a || b) c e) [
    | inl one ↦ elim (or_split a b one) [
      | inl first ↦ inl (f.0 first)
      | inr second ↦ inr (inl (g.0 second))
    ]
    | inr third ↦ inr (inr (h.0 third))
  ],
  λ m. elim m [
    | inl p ↦ let first = f.1 p in ground (arith, first)
    | inr (inl q) ↦ let second = g.1 q in ground (arith, second)
    | inr (inr r) ↦ let third = h.1 r in ground (arith, third)
  ],
)

is_exempt_iff : (r : Request) → (is_exempt r ≡ true) ↔ IsExempt r.path
unfolding is_exempt IsExempt
is_exempt_iff r =
    or_iff₃ (r.path == "/health") (r.path == "/metrics") (starts_with r.path "/static")
      (str_eq_iff r.path "/health") (str_eq_iff r.path "/metrics")
      (starts_with_iff r.path "/static")

is_read_iff : (r : Request) → (is_read r ≡ true) ↔ IsRead r.method
unfolding is_read IsRead
is_read_iff r =
    or_iff₃ (r.method == "GET") (r.method == "HEAD") (r.method == "OPTIONS")
      (str_eq_iff r.method "GET") (str_eq_iff r.method "HEAD") (str_eq_iff r.method "OPTIONS")

IsRead-never : (r : Request) → is_read r ≡ false → ¬ IsRead r.method
IsRead-never r writes reads = let also = (is_read_iff r).1 reads in cc

limits_for-AreLimits :
    (s : Settings) (r : Request) (has_api_key : Bool)
    → AreLimits s r has_api_key (limits_for s r has_api_key)
unfolding AreLimits limits_for
limits_for-AreLimits s r has_api_key = elim (Bool-cases (is_read r)) [
  | inl reads ↦ rw reads (inl ((is_read_iff r).0 reads, refl))
  | inr writes ↦
      let never : ¬ IsRead r.method = IsRead-never r writes in
      elim (Bool-cases has_api_key) [
        | inl key ↦ rw (writes, key) (inr (inl (never, refl, refl)))
        | inr no_key ↦ rw (writes, no_key) (inr (inr (never, refl, refl)))
      ]
]

after_hour-Limited :
    (second now : ℕ) (limits : Limits) (caller : CallerTimes) (minute : Times)
    (checked : Times × Bool)
    → Judged now limits.per_hour (3600 * second) caller.hour checked
    → ((limits.per_hour ≤ recent now (3600 * second) caller.hour)
        × ((if checked.1 then too_many_requests limits.per_hour 3600 else passed_on)
            ≡ too_many_requests limits.per_hour 3600)
        × IsCleaned now (3600 * second) caller.hour checked.0)
      ⊎ ((recent now (3600 * second) caller.hour < limits.per_hour)
          × ((if checked.1 then too_many_requests limits.per_hour 3600 else passed_on) ≡ passed_on)
          × IsRecorded now (3600 * second) caller.hour checked.0)
unfolding Judged
after_hour-Limited second now limits caller minute (hour, true) judged =
    inl (judged.0, refl, judged.1)
after_hour-Limited second now limits caller minute (hour, false) judged =
    inr (judged.0, refl, judged.1)

after_minute-Limited :
    (second now : ℕ) (limits : Limits) (caller : CallerTimes) (checked : Times × Bool)
    → Judged now limits.per_minute (60 * second) caller.minute checked
    → Limited second now limits caller (after_minute second now limits caller checked)
unfolding Limited after_minute Judged
after_minute-Limited second now limits caller (minute, true) judged =
    inl (judged.0, refl, judged.1, refl)
after_minute-Limited second now limits caller (minute, false) judged = inr (
  judged.0,
  judged.1,
  after_hour-Limited second now limits caller minute _
      (is_rate_limited-Judged now limits.per_hour (3600 * second) caller.hour),
)

-- How the middleware answers. A request to /health, /metrics or a path that begins with /static is passed on and changes
-- nothing. Any other is judged by the limits of its kind: if as many times as the limit or more are recorded in the minute that ends now, it is answered with
-- 429 and Retry-After 60, and the hour is left as it was; else its time is recorded in the minute and, if the hour is full, it is answered with 429 and
-- Retry-After 3600; else its time is recorded in the hour too, and it is passed on. An entry that is looked at keeps
-- the times in its window and no others.
pub call-Answered :
    (second : ℕ) (s : Settings) (now : ℕ) (r : Request) (has_api_key : Bool) (caller : CallerTimes)
    → Answered second s now r has_api_key caller (call second s now r has_api_key caller)
unfolding call Answered
call-Answered second s now r has_api_key caller =
    let limits = limits_for s r has_api_key in
    elim (Bool-cases (is_exempt r)) [
      | inl exempt ↦ rw exempt (inl ((is_exempt_iff r).0 exempt, refl, refl))
      | inr other ↦ rw other (
          inr (
            (λ exempt. (let also = (is_exempt_iff r).1 exempt in cc)),
            (
              limits,
              limits_for-AreLimits s r has_api_key,
              after_minute-Limited second now limits caller _
                  (is_rate_limited-Judged now limits.per_minute (60 * second) caller.minute),
            ),
          ))
    ]
