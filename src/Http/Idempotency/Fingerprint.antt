-- ===== src/Http/Idempotency/Fingerprint.antt =====
-- idempotency.middleware.ts: the fingerprint of a request's body. `json` is `JSON.stringify` and
-- `sha256` is the digest of node's crypto, in hexadecimal.
use Prim.Native.String.{◌++◌}
use canvassync.Prelude.{String, Bool, List, [], ◌∷◌, if◌then◌else◌}
use canvassync.Prelude.Int.{nonneg}
use canvassync.Collation.{utf16, compare_units}
use canvassync.JsValue.{JsValue, undefined, null, arr, obj, Items, nil, cons, Props, end, prop}

-- `xs.join(",")`
abbrev join : List String → String
join [] = ""
join (s ∷ []) = s
join (s ∷ t ∷ ts) = s ++ "," ++ join (t ∷ ts)

-- `a <= b` by code units, as `sort` compares.
abbrev pub text_le : String → String → Bool
text_le a b = nonneg (compare_units (utf16 b) (utf16 a))

unfoldable pub insert_key : String × String → List (String × String) → List (String × String)
insert_key e [] = e ∷ []
insert_key e (f ∷ es) =
    let rest = insert_key e es in if text_le e.0 f.0 then e ∷ f ∷ es else f ∷ rest

module _ (json : JsValue → String) where
  -- `JSON.stringify(key):stableStringify(obj[key])`
  abbrev members : List (String × String) → List String
  members [] = []
  members ((k, v) ∷ es) = (json (JsValue.str k) ++ ":" ++ v) ∷ members es

  -- The properties with their printed values, sorted by key.
  unfoldable mutual
    pub stable_stringify : JsValue → String
    stable_stringify (arr xs) = "[" ++ join (print_items xs) ++ "]"
    stable_stringify (obj ps) = "{" ++ join (members (print_props ps)) ++ "}"
    stable_stringify v = json v

    pub print_items : Items → List String
    print_items nil = []
    print_items (cons v xs) = stable_stringify v ∷ print_items xs

    pub print_props : Props → List (String × String)
    print_props end = []
    print_props (prop k v ps) = insert_key (k, stable_stringify v) (print_props ps)

  -- `body ?? null`
  abbrev or_null : JsValue → JsValue
  or_null undefined = null
  or_null v = v

  unfoldable pub hash_request_body : (sha256 : String → String) → JsValue → String
  unfolding stable_stringify
  hash_request_body sha256 body = sha256 (stable_stringify (or_null body))
