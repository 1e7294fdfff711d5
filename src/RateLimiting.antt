-- ===== src/RateLimiting.antt =====
-- src/api/rate_limiting.py: RateLimitingMiddleware. Times are whole ticks of the clock, as many to
-- the second as the clock has. An entry of the store is keyed by the time that it holds, so it is
-- kept as the time alone; a second request at the same tick overwrites it.
pub mod Window
pub mod Entries
pub mod Admission
use text.Mathlib.Text.{starts_with}
use delaxis.Prelude.{
  ℕ, ◌+◌, ◌*◌, String, ◌==◌, Bool, true, false, not, ◌&&◌, ◌||◌, Option, none, some, List, [], ◌∷◌,
  ◌++◌, length, lookup, ltb, leb, nat_eq, if◌then◌else◌,
}

-- The part of the store that belongs to one identifier.
abbrev pub Times : Type 0
Times = List ℕ

-- `v > now - window_seconds`
unfoldable pub clean : ℕ → ℕ → Times → Times
clean now window [] = []
clean now window (v ∷ times) =
    let rest = clean now window times in if ltb now (v + window) then v ∷ rest else rest

unfoldable pub record_time : ℕ → Times → Times
record_time now [] = now ∷ []
record_time now (v ∷ times) =
    let rest = record_time now times in if nat_eq v now then v ∷ times else v ∷ rest

unfoldable pub is_rate_limited : ℕ → ℕ → ℕ → Times → Times × Bool
is_rate_limited now requests_per_window window times =
    let kept = clean now window times in
    if leb requests_per_window (length kept) then (kept, true) else (record_time now kept, false)

pub record Limits : Type 0 where
  pub per_minute : ℕ
  pub per_hour : ℕ

pub record Settings : Type 0 where
  pub read : Limits
  pub api_key : Limits
  pub regular : Limits

pub record Request : Type 0 where
  pub path : String
  pub method : String

pub data Response : Type 0 where
  passed_on : Response
  -- 429, with the limit and the seconds of Retry-After
  too_many_requests : ℕ → ℕ → Response

-- The two entries of the store for the key of one caller; reads have a key of their own.
pub record CallerTimes : Type 0 where
  pub minute : Times
  pub hour : Times

unfoldable pub is_read : Request → Bool
is_read r = (r.method == "GET") || (r.method == "HEAD") || (r.method == "OPTIONS")

unfoldable pub limits_for : Settings → Request → Bool → Limits
limits_for s r has_api_key =
    if is_read r then s.read else if has_api_key then s.api_key else s.regular

unfoldable pub is_exempt : Request → Bool
is_exempt r = (r.path == "/health") || (r.path == "/metrics") || starts_with r.path "/static"

unfoldable pub after_minute : ℕ → ℕ → Limits → CallerTimes → Times × Bool → CallerTimes × Response
after_minute second now limits caller (minute, true) =
    (record caller { minute = minute }, too_many_requests limits.per_minute 60)
after_minute second now limits caller (minute, false) =
    let checked = is_rate_limited now limits.per_hour (3600 * second) caller.hour in
    (
      record { minute = minute; hour = checked.0 },
      (if checked.1 then too_many_requests limits.per_hour 3600 else passed_on),
    )

-- One request at the time `now`, with `second` ticks to the second.
unfoldable pub call : ℕ → Settings → ℕ → Request → Bool → CallerTimes → CallerTimes × Response
call second s now r has_api_key caller =
    let limits = limits_for s r has_api_key in
    if is_exempt r
    then (caller, passed_on)
    else after_minute second now limits caller
        (is_rate_limited now limits.per_minute (60 * second) caller.minute)
