-- ===== src/Http/Tests.antt =====
-- apps/http-backend/src/middlewares: two requests with one key, and one over its limit.
use canvassync.Prelude.{
  All, select, ℕ, ◌≤◌, String, true, false, none, some, [], ◌∷◌, ◌≡◌, refl, arith, ltb, All,
  string_key, nat_key, if◌then◌else◌, ◌==◌,
}
use mathlib.Core.List.{Mem, ◌++◌}
use canvassync.JsMap
use canvassync.JsMap.{JsMap, IsMap}
use canvassync.JsValue.{JsValue, str}
use canvassync.Http.Request.{
  Request, single, get_route_key, get_actor_scope, get_client_ip, first_forwarded_for, before_comma,
  trim,
}
use canvassync.Http.RateLimit.{
  RedisAnswer, answered, api_error, try_limit, rate_limit_key, rate_limit_middleware,
  rate_limit_middleware_passes,
}
use canvassync.Http.Idempotency.Store.{prune_expired_entries}
use canvassync.Http.Idempotency.Pruning.{is_in_flight, prune_expired_entries_keeps}
use canvassync.Http.Idempotency.Middleware.{
  IdempotencyConfig, Exchange, Server, Reply, replayed, refused, arrived, step, pending_state,
  new_exchange, store_key_of, fingerprint_of, look_up, idempotency_middleware, finalize,
  response_of,
}
use canvassync.Http.Idempotency.Reached.{started, then_step, empty_server, Reached-exclusive}
use canvassync.Http.Idempotency.Replay.{finalize-replay, finalize_answers}

abbrev sign_up : Request
sign_up = record {
  method = "POST";
  base_url = "";
  path = "/rooms";
  user_id = none;
  forwarded_for = single "10.0.0.1, 10.0.0.2";
  ip = some "127.0.0.1";
  remote_address = none;
  idempotency_key = some " k1 ";
  body = str "a";
}

over_limit : String → RedisAnswer
over_limit key = answered (some (121, 1500))

rate_limit_middleware_passes_example :
    ((rate_limit_middleware 0 120 60000 over_limit sign_up).next_called ≡ true)
    × ((rate_limit_middleware 0 120 60000 over_limit sign_up).headers.retry_after ≡ some 2)
    × ((try_limit 0 120 60000 (over_limit (rate_limit_key sign_up))).0 ≡ api_error 429)
unfolding over_limit
rate_limit_middleware_passes_example =
    rate_limit_middleware_passes 0 120 60000 121 1500 over_limit sign_up refl refl (omega arith)

abbrev print : JsValue → String
print (str s) = s
print _ = "null"

abbrev cfg : IdempotencyConfig
cfg = record { max_entries = 2; window_ms = 1000; json = print; sha256 = λ s. s }

abbrev first_state : Server ℕ
first_state = record {
  store = (store_key_of sign_up, pending_state 0 "a") ∷ [];
  exchanges = (0, new_exchange (store_key_of sign_up) "a") ∷ [];
  waiting = (1, 0) ∷ [];
  replies = [];
  arrivals = 2;
}

key_of_sign_up : store_key_of sign_up ≡ "POST::/rooms:ip:10.0.0.1:k1"
unfolding store_key_of get_route_key get_actor_scope get_client_ip first_forwarded_for before_comma
    trim
key_of_sign_up = refl

prune_expired_entries_keeps_example :
    (JsMap.size (prune_expired_entries 1 5 first_state.store) ≤ 1)
    × All
        (λ e. JsMap.get (prune_expired_entries 1 5 first_state.store) e.0 ≡ some e.1)
        (select is_in_flight first_state.store)
unfolding JsMap.has
prune_expired_entries_keeps_example =
    prune_expired_entries_keeps 1 5 first_state.store (refl, tt) (omega arith)

abbrev arrived_once : Server ℕ
arrived_once = step cfg (empty_server ℕ) (arrived 0 sign_up)

abbrev first_exchange : Exchange ℕ
first_exchange = new_exchange (store_key_of sign_up) (fingerprint_of cfg sign_up)

first_runs : JsMap.get arrived_once.exchanges 0 ≡ some first_exchange
unfolding step idempotency_middleware JsMap.get look_up trim JsMap.size JsMap.set
first_runs = refl

Reached-exclusive_example : ◌≡◌ {A = ℕ} 0 0
Reached-exclusive_example =
    Reached-exclusive cfg arrived_once 0 0 first_exchange first_exchange
      (then_step (empty_server ℕ) (arrived 0 sign_up) started (omega arith)) first_runs first_runs
      refl refl refl

finalize-replay_example :
    let s' = finalize cfg 0 10 201 [] first_state in
    let c = response_of cfg 10 201 [] (new_exchange (store_key_of sign_up) "a") in
    (idempotency_middleware cfg 500 sign_up s').replies
    ≡ s'.replies
      ++ (s'.arrivals, if "a" == fingerprint_of cfg sign_up then replayed c else refused 409) ∷ []
unfolding JsMap.has JsMap.get JsMap.size trim
finalize-replay_example =
    finalize-replay cfg first_state 0 10 500 201 [] (new_exchange (store_key_of sign_up) "a")
      sign_up (refl, tt) (omega arith) refl refl (omega arith) refl refl (omega arith)

finalize_answers_example :
    let s' = finalize cfg 0 10 201 [] first_state in
    let c = response_of cfg 10 201 [] (new_exchange (store_key_of sign_up) "a") in
    Mem {A = ℕ × Reply ℕ} (1, if ltb 201 500 then replayed c else refused 201) s'.replies
    × All (λ w. (w.1 == 0) ≡ false) s'.waiting
unfolding JsMap.get
finalize_answers_example =
    finalize_answers cfg first_state 0 10 201 1 [] (new_exchange (store_key_of sign_up) "a") refl
      refl refl
