-- ===== src/Samples/Requests.antt =====
-- The rate limiter with two requests a window.
use delaxis.Prelude.{ℕ, ◌≤◌, true, List, [], ◌∷◌, leb, ◌≡◌, refl, arith}
use delaxis.RateLimiting.{
  clean, record_time, is_rate_limited, Limits, Settings, Request, CallerTimes, call,
  too_many_requests, passed_on, after_minute, limits_for, is_exempt, is_read,
}
use delaxis.RateLimiting.Window.{
  requests, nothing_seen, recent, IsOrdered, requests-bounded, requests-admits,
}
use delaxis.RateLimiting.Admission.{Answered, call-Answered}

abbrev ticks : List ℕ
ticks = 1 ∷ 2 ∷ 3 ∷ 62 ∷ []

requests-ticks : (requests 2 60 ticks nothing_seen).accepted ≡ 1 ∷ 2 ∷ 62 ∷ []
unfolding is_rate_limited clean record_time
requests-ticks = refl

ticks-IsOrdered : IsOrdered 0 ticks 71
ticks-IsOrdered = (omega arith, (omega arith, (omega arith, (omega arith, omega arith))))

requests-bounded_example : recent 70 60 (requests 2 60 ticks nothing_seen).accepted ≤ 2
requests-bounded_example = requests-bounded 2 60 ticks 70 ticks-IsOrdered

requests-admits_example :
    (is_rate_limited 70 2 60 (requests 2 60 ticks nothing_seen).store).1
    ≡ leb 2 (recent 70 60 (requests 2 60 ticks nothing_seen).accepted)
requests-admits_example = requests-admits 2 60 ticks 70 ticks-IsOrdered

abbrev settings : Settings
settings = record { read = small; api_key = small; regular = small }
  where
    small : Limits
    small = record { per_minute = 2; per_hour = 9 }

abbrev post : Request
post = record { path = "/api/chat"; method = "POST" }

abbrev page : Request
page = record { path = "/static/index.html"; method = "GET" }

abbrev caller : CallerTimes
caller = record { minute = 1 ∷ 2 ∷ []; hour = 1 ∷ 2 ∷ [] }

call-post : (call 1 settings 5 post true caller).1 ≡ too_many_requests 2 60
unfolding call after_minute limits_for is_exempt is_read is_rate_limited clean record_time
call-post = refl

call-page : (call 1 settings 5 page true caller).1 ≡ passed_on
unfolding call is_exempt
call-page = refl

call-Answered_example : Answered 1 settings 5 post true caller (call 1 settings 5 post true caller)
call-Answered_example = call-Answered 1 settings 5 post true caller
