-- ===== src/Crdt/Load.antt =====
-- A merged map is a list of shapes and back: what one merge returns is what the next one loads.
use mathlib.Core.List.{append-nil, append_assoc}
use canvassync.Prelude.{
  String, ◌≡◌, List, [], ◌∷◌, ◌++◌, foldl, arith, refl, All, Option, string_key, ◌==◌, false, find,
  ◌∙◌, ap,
}
use canvassync.JsMap
use canvassync.JsMap.{JsMap, IsMap}
use canvassync.JsMap.Laws.{set_fresh, has-append}
use canvassync.Crdt.{Shape, load_shape, load_shapes}
use canvassync.Crdt.Valid.{IsEntry}

-- No key of `m` is a key of `acc`.
abbrev Fresh : JsMap String Shape → JsMap String Shape → Type 0
Fresh acc m = All (λ e. JsMap.has acc e.0 ≡ false) m

Fresh-step :
    (acc m : JsMap String Shape) (k : String) (s : Shape)
    → JsMap.has m k ≡ false
    → Fresh acc m
    → Fresh (acc ++ (k, s) ∷ []) m
unfolding JsMap.has
Fresh-step acc [] k s h f = tt
Fresh-step acc ((j, t) ∷ m) k s h (g, f) = (
  ground (
    arith,
    has-append acc ((k, s) ∷ []) j,
    string_key.matches_iff j k,
    string_key.matches_iff k j,
  ),
  Fresh-step acc m k s (ground arith) f,
)

load_values_onto :
    (acc m : JsMap String Shape)
    → IsMap m
    → All IsEntry m
    → Fresh acc m
    → foldl load_shape acc (JsMap.values m) ≡ acc ++ m
load_values_onto acc [] h e f = rw append-nil
load_values_onto acc ((k, s) ∷ m) (h, hs) ((own, stamped), es) (f, fs) =
    ap (λ (a : JsMap String Shape). foldl load_shape a (JsMap.values m)) loaded
    ∙ load_values_onto (acc ++ (k, s) ∷ []) m hs es (Fresh-step acc m k s h fs)
    ∙ append_assoc acc ((k, s) ∷ []) m
  where
    loaded : load_shape acc s ≡ acc ++ (k, s) ∷ []
    loaded = unfold load_shape in cc (own, stamped, set_fresh acc k s f)

all-Fresh : (m : JsMap String Shape) → Fresh [] m
unfolding JsMap.has
all-Fresh [] = tt
all-Fresh (e ∷ m) = (refl, all-Fresh m)

pub load_shapes-values :
    (m : JsMap String Shape) → IsMap m → All IsEntry m → load_shapes (JsMap.values m) ≡ m
unfolding load_shapes
load_shapes-values m h e = load_values_onto [] m h e (all-Fresh m)

-- `shapes.find((s) => s.id === id)`
abbrev pub shown : String → List Shape → Option Shape
shown id = find (λ s. s.id == id)

pub shown-values :
    (m : JsMap String Shape) (id : String)
    → All IsEntry m
    → shown id (JsMap.values m) ≡ JsMap.get m id
unfolding JsMap.get
shown-values [] id e = refl
shown-values ((k, s) ∷ m) id ((own, _), es) = rw own (ground (arith, shown-values m id es))
