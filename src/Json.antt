-- ===== src/Json.antt =====
-- JSON values, and the rules of encoding/json for struct fields. A number that is no integer
-- literal is kept as its text.
use sing_box_helper.Prelude.{
  Bool, List, [], ◌∷◌, map, Option, none, some, String, ◌==◌, if◌then◌else◌, ℤ, eq_ℤ, pos,
}

mutual
  pub data Json : Type 0 where
    null : Json
    boolean : Bool → Json
    int : ℤ → Json
    number : String → Json
    str : String → Json
    arr : Items → Json
    obj : Members → Json

  pub data Items : Type 0 where
    nil : Items
    cons : Json → Items → Items

  pub data Members : Type 0 where
    end : Members
    member : String → Json → Members → Members

abbrev pub items : List Json → Items
items [] = nil
items (v ∷ vs) = cons v (items vs)

abbrev pub members : List (String × Json) → Members
members [] = end
members ((k, v) ∷ ms) = member k v (members ms)

abbrev pub array : List Json → Json
array vs = arr (items vs)

abbrev pub object : List (String × Json) → Json
object ms = obj (members ms)

abbrev pub Fields : Type 0
Fields = List (String × Json)

-- A slice, element by element.
abbrev pub list_of {ℓ} : {A : Type ℓ} → (A → Json) → List A → Json
list_of encode as' = array (map encode as')

-- One field of a struct, and the fields with `omitempty`.
abbrev pub field : String → Json → Fields
field key v = (key, v) ∷ []

unfoldable pub str_omit : String → String → Fields
str_omit key v = if v == "" then [] else field key (str v)

unfoldable pub int_omit : String → ℤ → Fields
int_omit key v = if eq_ℤ v (pos 0) then [] else field key (int v)

unfoldable pub bool_omit : String → Bool → Fields
bool_omit key v = if v then field key (boolean v) else []

unfoldable pub pointer_omit {ℓ} : {A : Type ℓ} → (A → Json) → String → Option A → Fields
pointer_omit encode key none = []
pointer_omit encode key (some a) = field key (encode a)

unfoldable pub list_omit {ℓ} : {A : Type ℓ} → (A → Json) → String → List A → Fields
list_omit encode key [] = []
list_omit encode key (a ∷ as') = field key (list_of encode (a ∷ as'))
