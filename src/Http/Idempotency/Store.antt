-- ===== src/Http/Idempotency/Store.antt =====
-- idempotency.middleware.ts: the store of responses, and how it is kept small.
use Prim.Native.Char.{Char, code}
use canvassync.Prelude.{
  any, ltb, nat_beq, ℕ, ◌+◌, String, Bool, true, false, not, ◌&&◌, Option, none, some, List, [],
  ◌∷◌, leb, if◌then◌else◌, select, string_key,
}
use canvassync.JsMap
use canvassync.JsMap.{JsMap}

pub data BodyKind : Type 0 where
  json_body send_body end_body : BodyKind

-- A header's value: a text, several, or something else that node accepts.
pub data HeaderValue : Type 0 where
  text : String → HeaderValue
  texts : List String → HeaderValue
  other : HeaderValue

pub record CachedResponse (B : Type 0) : Type 0 where
  pub status_code : ℕ
  pub headers : List (String × HeaderValue)
  pub body : Option B
  pub body_kind : BodyKind
  pub fingerprint : String
  pub expires_at : ℕ

-- `promise` is the number of the request that resolves or rejects the promise.
pub record PendingEntry : Type 0 where
  pub fingerprint : String
  pub promise : ℕ

pub record IdempotencyState (B : Type 0) : Type 0 where
  pub pending : Option PendingEntry
  pub cached : Option (CachedResponse B)

-- `toLowerCase` on a header's name, which node keeps to ASCII.
abbrev lower : Char → ℕ
lower c = let n = code c in if leb 0x41 n && leb n 0x5a then n + 0x20 else n

abbrev same_name : String → String → Bool
same_name String.[] String.[] = true
same_name (String.◌∷◌ c s) (String.◌∷◌ d t) = nat_beq (lower c) (lower d) && same_name s t
same_name _ _ = false

abbrev excluded_headers : List String
excluded_headers = "content-length" ∷ "transfer-encoding" ∷ "connection" ∷ "date" ∷ []

abbrev is_replayable : HeaderValue → Bool
is_replayable (text s) = true
is_replayable (texts ss) = true
is_replayable other = false

unfoldable pub sanitize_headers : List (String × HeaderValue) → List (String × HeaderValue)
sanitize_headers = select (λ h. not (any (same_name h.0) excluded_headers) && is_replayable h.1)

unfoldable pub is_replayable_status : ℕ → Bool
is_replayable_status status_code = ltb status_code 500

module _ {B : Type 0} where
  -- `state.cached && state.cached.expiresAt <= now`
  unfoldable pub is_expired : ℕ → IdempotencyState B → Bool
  is_expired now st = elim st.cached [ none ↦ false | some c ↦ leb c.expires_at now ]

  -- `!state.cached && !state.pending`
  unfoldable pub is_empty : IdempotencyState B → Bool
  is_empty st = elim st.cached [
    | none ↦ elim st.pending [ none ↦ true | some p ↦ false ]
    | some c ↦ false
  ]

  -- The loop over the entries.
  unfoldable pub drop_dead :
      ℕ → JsMap String (IdempotencyState B) → JsMap String (IdempotencyState B)
  unfolding is_expired is_empty
  drop_dead now = select (λ e. not (is_expired now e.1) && not (is_empty e.1))

  -- `left[1].cached?.expiresAt ?? Infinity` is not above `right`'s.
  unfoldable pub expires_first : IdempotencyState B → IdempotencyState B → Bool
  expires_first left right = elim left.cached [
    | none ↦ elim right.cached [ none ↦ true | some d ↦ false ]
    | some c ↦ elim right.cached [ none ↦ true | some d ↦ leb c.expires_at d.expires_at ]
  ]

  -- `entries.sort`, which is stable.
  unfoldable pub insert_entry :
      String × IdempotencyState B
      → JsMap String (IdempotencyState B)
      → JsMap String (IdempotencyState B)
  unfolding expires_first
  insert_entry e [] = e ∷ []
  insert_entry e (f ∷ es) =
      let rest = insert_entry e es in if expires_first e.1 f.1 then e ∷ f ∷ es else f ∷ rest

  unfoldable pub sort_entries :
      JsMap String (IdempotencyState B) → JsMap String (IdempotencyState B)
  unfolding insert_entry
  sort_entries [] = []
  sort_entries (e ∷ es) = insert_entry e (sort_entries es)

  -- The loop over the sorted entries.
  unfoldable pub evict :
      (max_entries : ℕ)
      → JsMap String (IdempotencyState B)
      → JsMap String (IdempotencyState B)
      → JsMap String (IdempotencyState B)
  evict max_entries [] store = store
  evict max_entries (e ∷ es) store =
      let rest = evict max_entries es (JsMap.delete store e.0) in
      if leb (JsMap.size store) max_entries then store else rest

  unfoldable pub prune_expired_entries :
      (max_entries now : ℕ) → JsMap String (IdempotencyState B) → JsMap String (IdempotencyState B)
  unfolding drop_dead sort_entries evict
  prune_expired_entries max_entries now store =
      let kept = drop_dead now store in
      if leb (JsMap.size kept) max_entries then kept else evict max_entries (sort_entries kept) kept
