-- ===== src/JsValue.antt =====
-- The values that `JSON.parse` gives, with `undefined` for a property that is absent, and the
-- numbers of the language as far as the program looks into them.
use canvassync.Prelude.{ℕ, String, Bool, if◌then◌else◌, ◌==◌, string_key}

-- An IEEE double: a finite one has a sign, a whole part and a fraction (in units of 2^-1074).
pub data JsNumber : Type 0 where
  nan : JsNumber
  infinite : (negative : Bool) → JsNumber
  finite : (negative : Bool) (whole frac : ℕ) → JsNumber

mutual
  pub data JsValue : Type 0 where
    undefined null : JsValue
    bool : Bool → JsValue
    num : JsNumber → JsValue
    str : String → JsValue
    arr : Items → JsValue
    obj : Props → JsValue

  pub data Items : Type 0 where
    nil : Items
    cons : JsValue → Items → Items

  pub data Props : Type 0 where
    end : Props
    prop : String → JsValue → Props → Props

-- o[key]
unfoldable pub property : String → Props → JsValue
property k end = undefined
property k (prop j v ps) = if j == k then v else property k ps
