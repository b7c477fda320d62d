-- ===== src/Bson/Document.antt =====
-- wirebson/src/document.rs and array.rs: the operations on an eager document, which is its fields
-- in order, and on an array. `&mut self` is the document that the call leaves.
pub mod Laws
use mongowire.Base.{
  ℕ, suc, ◌+◌, Bool, true, false, Option, none, some, List, [], ◌∷◌, Bytes, if◌then◌else◌, bytes_eq,
}
use mongowire.Bson.{Bson, Fields, no_fields, field, Values, no_values, value}

unfoldable pub new : Fields
new = no_fields

unfoldable pub len : Fields → ℕ
len no_fields = 0
len (field n v more) = suc (len more)

unfoldable pub is_empty : Fields → Bool
is_empty no_fields = true
is_empty (field n v more) = false

unfoldable pub add : Fields → Bytes → Bson → Fields
add no_fields name v = field name v no_fields
add (field n w more) name v = field n w (add more name v)

unfoldable pub get : Fields → Bytes → Option Bson
get no_fields name = none
get (field n v more) name = let rest = get more name in if bytes_eq n name then some v else rest

-- The value behind the reference, and the document after a write through it.
unfoldable pub get_mut : Fields → Bytes → Option (Bson × (Bson → Fields))
get_mut no_fields name = none
get_mut (field n v more) name =
    let rest = get_mut more name in
    if bytes_eq n name
    then some (v, λ w. field n w more)
    else elim rest [ none ↦ none | some r ↦ some (r.0, λ w. field n v (r.1 w)) ]

-- The first removed value, and the document that is left.
unfoldable pub remove : Fields → Bytes → Option Bson × Fields
remove no_fields name = (none, no_fields)
remove (field n v more) name =
    let rest = remove more name in
    if bytes_eq n name then (some v, rest.1) else (rest.0, field n v rest.1)

unfoldable pub replace : Fields → Bytes → Bson → Fields
replace no_fields name v = field name v no_fields
replace (field n w more) name v =
    let rest = replace more name v in if bytes_eq n name then field n v more else field n w rest

unfoldable pub field_names : Fields → List Bytes
field_names no_fields = []
field_names (field n v more) = n ∷ field_names more

unfoldable pub command : Fields → Option Bytes
command no_fields = none
command (field n v more) = some n

unfoldable pub push : Values → Bson → Values
push no_values v = value v no_values
push (value w vs) v = value w (push vs v)

unfoldable pub array_len : Values → ℕ
array_len no_values = 0
array_len (value v vs) = suc (array_len vs)
