-- ===== src/Json.antt =====
-- The values of JavaScript that a parsed JSON message holds: `unknown` in the source.
-- A number is carried by the text that `String(n)` gives for it; `undefined` is what reading an
-- absent field gives.
use af_companion.Prelude.{String, Bool, Option, none, some, List, [], ◌∷◌}
use af_companion.Prelude.StringMap

mutual
  pub data Json : Type 0 where
    undefined null : Json
    bool : Bool → Json
    num str : String → Json
    arr : Items → Json
    obj : Fields → Json

  pub data Items : Type 0 where
    nil : Items
    cons : Json → Items → Items

  pub data Fields : Type 0 where
    end : Fields
    field : String → Json → Fields → Fields

abbrev pub items : Items → List Json
items nil = []
items (cons x xs) = x ∷ items xs

abbrev pub fields : Fields → List (String × Json)
fields end = []
fields (field k v fs) = (k, v) ∷ fields fs

abbrev pub to_items : List Json → Items
to_items [] = nil
to_items (x ∷ xs) = cons x (to_items xs)

abbrev pub or_undefined : Option Json → Json
or_undefined none = undefined
or_undefined (some v) = v

-- `object.key`
unfoldable pub read : String → List (String × Json) → Json
unfolding StringMap.get
read k o = or_undefined (StringMap.get k o)
