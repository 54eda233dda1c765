-- ===== src/Conductor/Json.antt =====
-- Untrusted values, as `JSON.parse` builds them; numbers are whole.
use agentbnb.Prelude.{Bool, String, Option, none, some, List, [], ◌∷◌, ℤ, str_eq, if◌then◌else◌}

mutual
  pub data Json : Type 0 where
    null : Json
    boolean : Bool → Json
    number : ℤ → Json
    text : String → Json
    array : Elements → Json
    object : Fields → Json

  -- The entries of an array.
  pub data Elements : Type 0 where
    no_element : Elements
    element : Json → Elements → Elements

  -- The members of an object.
  pub data Fields : Type 0 where
    no_field : Fields
    member : String → Json → Fields → Fields

unfoldable pub elements_of : Elements → List Json
elements_of no_element = []
elements_of (element j js) = j ∷ elements_of js

unfoldable pub elements : List Json → Elements
elements [] = no_element
elements (j ∷ js) = element j (elements js)

-- `obj[key]`, where `undefined` is `none`.
unfoldable pub field : String → Fields → Option Json
field k no_field = none
field k (member j v rest) = let found = field k rest in if str_eq j k then some v else found
