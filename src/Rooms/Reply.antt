-- ===== src/Rooms/Reply.antt =====
-- How a handler of apps/http-backend ends: apps/http-backend/src/utils/ApiError.ts and
-- ApiResponse.ts.
use canvassync.Prelude.{ℕ, String, Bool, true, false, Option, none, some, ◌≡◌, refl, ◌⊎◌, inl, inr}
use mathlib.Core.Path.{subst}

-- `throw new ApiError(status, …)`, or the value that the handler goes on with.
pub data Reply {ℓ} (A : Type ℓ) : Type ℓ where
  done : A → Reply A
  api_error : (status : ℕ) → Reply A

infixl 5 ◌>>=◌ ◌>>◌
abbrev pub ◌>>=◌ {ℓ κ} : {A : Type ℓ} {B : Type κ} → Reply A → (A → Reply B) → Reply B
done a >>= f = f a
api_error status >>= f = api_error status

abbrev pub ◌>>◌ {ℓ κ} : {A : Type ℓ} {B : Type κ} → Reply A → Reply B → Reply B
done a >> m = m
api_error status >> m = api_error status

-- `if (!test) throw new ApiError(status, …)`
abbrev pub ensure : Bool → ℕ → Reply (Unit {0})
ensure true status = done tt
ensure false status = api_error status

-- `safeParse`: no data if the schema refuses the input.
abbrev pub parsed {ℓ} : {A : Type ℓ} → Option A → ℕ → Reply A
parsed none status = api_error status
parsed (some a) status = done a

abbrev pub require_user_id : Option String → Reply String
require_user_id none = api_error 401
require_user_id (some String.[]) = api_error 401
require_user_id (some (String.◌∷◌ c s)) = done (String.◌∷◌ c s)

-- What holds of the value, where a value is returned.
pub data Returns {ℓ κ} {A : Type ℓ} (P : A → Type κ) (m : Reply A) : Type (ℓ ⊔ κ) where
  returns : ((a : A) → m ≡ done a → P a) → Returns P m

pub Returns-done {ℓ κ} :
    {A : Type ℓ} {P : A → Type κ} {m : Reply A} {a : A} → Returns P m → m ≡ done a → P a
Returns-done {a = a} (returns h) e = h a e

pub done_lem {ℓ κ} : {A : Type ℓ} {P : A → Type κ} {a : A} → P a → Returns P (done a)
done_lem {P = P} p = returns (λ b e. subst P (cc) p)

pub Returns->>= {ℓ κ μ} :
    {A : Type ℓ} {B : Type κ} {P : B → Type μ} (m : Reply A) {f : A → Reply B}
    → ((a : A) → m ≡ done a → Returns P (f a))
    → Returns P (m >>= f)
Returns->>= (done a) h = h a refl
Returns->>= (api_error status) h = returns (λ b e. cc)

pub Returns->> {ℓ μ} :
    {B : Type ℓ} {P : B → Type μ} (test : Bool) (status : ℕ) {k : Reply B}
    → (test ≡ true → Returns P k)
    → Returns P (ensure test status >> k)
Returns->> true status h = h refl
Returns->> false status h = returns (λ b e. cc)

pub parsed-eq {ℓ} :
    {A : Type ℓ} (found : Option A) (status : ℕ) {a : A}
    → parsed found status ≡ done a
    → found ≡ some a
parsed-eq none status h = cc
parsed-eq (some b) status h = cc

pub Reply-cases {ℓ} :
    {A : Type ℓ} (m : Reply A) → ((a : A) × (m ≡ done a)) ⊎ ((status : ℕ) × (m ≡ api_error status))
Reply-cases (done a) = inl (a, refl)
Reply-cases (api_error status) = inr (status, refl)

pub done_injective {ℓ} : {A : Type ℓ} {a b : A} → done a ≡ done b → a ≡ b
done_injective h = cc
