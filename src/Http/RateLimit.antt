-- ===== src/Http/RateLimit.antt =====
-- apps/http-backend/src/middlewares/rate-limit.middleware.ts.
use Prim.Native.String.{◌++◌}
use canvassync.Prelude.{
  ℕ, ◌+◌, ◌/◌, ◌<◌, max, String, Bool, true, false, Option, none, some, ◌≡◌, ◌==◌, arith,
  string_key, if◌then◌else◌,
}
use canvassync.Ws.Redis.{RateLimitResult, check_redis_rate_limit}
use canvassync.Http.Request.{Request, get_client_ip, get_route_key, truthy, or_text}

-- What `checkRedisRateLimit` meets for a key: Redis fails, or the script answers.
pub data RedisAnswer : Type 0 where
  unavailable : RedisAnswer
  answered : Option (ℕ × ℕ) → RedisAnswer

-- How the `try` block ends.
pub data Attempt : Type 0 where
  completed redis_error : Attempt
  api_error : (status : ℕ) → Attempt

-- The headers that the middleware sets, each at most once.
pub record RateHeaders : Type 0 where
  pub limit : Option ℕ
  pub remaining : Option ℕ
  pub reset : Option ℕ
  pub retry_after : Option ℕ

pub record Passage : Type 0 where
  pub next_called : Bool
  pub headers : RateHeaders

abbrev no_headers : RateHeaders
no_headers = record { limit = none; remaining = none; reset = none; retry_after = none }

-- Math.ceil(ms / 1000)
abbrev pub seconds : ℕ → ℕ
seconds ms = (ms + 999) / 1000

-- The `actor` part of the key takes the user over the address.
unfoldable pub rate_limit_key : Request → String
rate_limit_key req = get_route_key req ++ ":" ++ or_text (truthy req.user_id) (get_client_ip req)

abbrev quota_headers : RateLimitResult → RateHeaders
quota_headers r = record {
  limit = some r.limit;
  remaining = some r.remaining;
  reset = some (seconds r.reset_at_ms);
  retry_after = none;
}

-- The `try` block: how it ends and the headers that it has set by then.
unfoldable pub try_limit : (now max_requests window_ms : ℕ) → RedisAnswer → Attempt × RateHeaders
unfolding check_redis_rate_limit
try_limit now max_requests window_ms unavailable = (redis_error, no_headers)
try_limit now max_requests window_ms (answered a) =
    let r = check_redis_rate_limit now max_requests window_ms a in
    if r.allowed then (completed, quota_headers r) else (
      api_error 429,
      record (quota_headers r) { retry_after = some (max 1 (seconds r.retry_after_ms)) },
    )

-- What follows the `try` block: the `catch` logs whatever was thrown and does not throw it again.
unfoldable pub reaches_next : Attempt → Bool
reaches_next completed = true
reaches_next redis_error = true
reaches_next (api_error status) = true

unfoldable pub rate_limit_middleware :
    (now max_requests window_ms : ℕ) → (String → RedisAnswer) → Request → Passage
unfolding try_limit reaches_next
rate_limit_middleware now max_requests window_ms redis req =
    let (attempt, headers) = try_limit now max_requests window_ms (redis (rate_limit_key req)) in
    if req.method == "OPTIONS"
    then record { next_called = true; headers = no_headers }
    else record { next_called = reaches_next attempt; headers = headers }

-- A request that is not OPTIONS and whose count is above the limit reaches next() nevertheless,
-- with Retry-After set to the seconds left, at least one: the ApiError(429) of the try block is
-- not thrown on.
pub rate_limit_middleware_passes :
    (now max_requests window_ms current ttl : ℕ) (redis : String → RedisAnswer) (req : Request)
    → (req.method == "OPTIONS") ≡ false
    → redis (rate_limit_key req) ≡ answered (some (current, ttl))
    → max 1 max_requests < current
    → ((rate_limit_middleware now max_requests window_ms redis req).next_called ≡ true)
      × ((rate_limit_middleware now max_requests window_ms redis req).headers.retry_after
          ≡ some (max 1 (seconds ttl)))
      × ((try_limit now max_requests window_ms (redis (rate_limit_key req))).0 ≡ api_error 429)
unfolding rate_limit_middleware
rate_limit_middleware_passes now max_requests window_ms current ttl redis req checked answer over =
    ground (arith, answer, max)
