-- ===== src/Http/Request.antt =====
-- What the middlewares of apps/http-backend/src/middlewares read of a request, and the address that
-- they find in it: rate-limit.middleware.ts and idempotency.middleware.ts.
use Prim.Native.Char.{Char, code}
use Prim.Native.String.{◌++◌}
use canvassync.Prelude.{
  String, Bool, ◌&&◌, ◌||◌, Option, none, some, List, [], ◌∷◌, leb, nat_beq, any, if◌then◌else◌,
  ◌==◌, string_key,
}
use canvassync.JsValue.{JsValue}

-- The header `X-Forwarded-For`: absent, one text, or several.
pub data ForwardedFor : Type 0 where
  absent : ForwardedFor
  single : String → ForwardedFor
  several : List String → ForwardedFor

-- `base_url` is `req.baseUrl || ""`; `body` is `req.body`, `undefined` if nothing was parsed.
pub record Request : Type 0 where
  pub method : String
  pub base_url : String
  pub path : String
  pub user_id : Option String
  pub forwarded_for : ForwardedFor
  pub ip : Option String
  pub remote_address : Option String
  pub idempotency_key : Option String
  pub body : JsValue

-- A text that is there and not empty.
abbrev pub truthy : Option String → Option String
truthy none = none
truthy (some String.[]) = none
truthy (some (String.◌∷◌ c s)) = some (String.◌∷◌ c s)

-- `a || b`
abbrev pub or_else : Option String → Option String → Option String
or_else none b = b
or_else (some a) b = some a

abbrev pub or_text : Option String → String → String
or_text none text = text
or_text (some a) text = a

-- s.split(",")[0]
unfoldable pub before_comma : String → String
before_comma String.[] = String.[]
before_comma (String.◌∷◌ c s) =
    let rest = before_comma s in if nat_beq (code c) 0x2c then String.[] else String.◌∷◌ c rest

-- What `trim` takes away: the white space and the line ends of ECMAScript.
abbrev is_white : Char → Bool
is_white c =
    let n = code c in
    any (nat_beq n)
      (0x20 ∷ 0xa0 ∷ 0x1680 ∷ 0x2028 ∷ 0x2029 ∷ 0x202f ∷ 0x205f ∷ 0x3000 ∷ 0xfeff ∷ [])
    || (leb 9 n && leb n 13)
    || (leb 0x2000 n && leb n 0x200a)

trim_start : String → String
trim_start String.[] = String.[]
trim_start (String.◌∷◌ c s) = let rest = trim_start s in if is_white c then rest else String.◌∷◌ c s

trim_end : String → String
trim_end String.[] = String.[]
trim_end (String.◌∷◌ c s) =
    let rest = trim_end s in if is_white c && rest == "" then String.[] else String.◌∷◌ c rest

-- s.trim()
unfoldable pub trim : String → String
unfolding trim_start trim_end
trim s = trim_end (trim_start s)

-- The address that the proxy named first; none if the code falls back on the socket.
unfoldable pub first_forwarded_for : ForwardedFor → Option String
first_forwarded_for absent = none
first_forwarded_for (single s) = elim (truthy (some (before_comma s))) [
  | none ↦ none
  | some first ↦ some (trim first)
]
first_forwarded_for (several []) = none
first_forwarded_for (several (s ∷ rest)) = elim (truthy (some s)) [
  | none ↦ none
  | some first ↦ some (trim first)
]

unfoldable pub get_client_ip : Request → String
get_client_ip req =
    or_text
      (or_else (first_forwarded_for req.forwarded_for)
        (or_else (truthy req.ip) (truthy req.remote_address)))
      "unknown"

unfoldable pub get_actor_scope : Request → String
get_actor_scope req = elim (truthy req.user_id) [
  | none ↦ "ip:" ++ get_client_ip req
  | some id ↦ "user:" ++ id
]

unfoldable pub get_route_key : Request → String
get_route_key req = req.method ++ ":" ++ req.base_url ++ ":" ++ req.path
