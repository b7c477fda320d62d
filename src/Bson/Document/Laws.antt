-- ===== src/Bson/Document/Laws.antt =====
-- The document of wirebson/src/document.rs as a table from names to the lists of their values.
use mongowire.Base.{
  ◌≡◌, refl, true, false, Option, none, some, List, [], ◌∷◌, ◌++◌, Bytes, if◌then◌else◌, bytes_eq,
  bytes_eq→eq, bytes_eq_refl, Bool-cases, inl, inr, Option-cases, ap, sym, ◌∙◌,
}
use mathlib.Core.Option
use mongowire.Bson.{Bson, Fields, no_fields, field}
use mongowire.Bson.Document.{add, get, get_mut, remove, replace}

-- The values under a name, in order.
unfoldable pub values_of : Fields → Bytes → List Bson
values_of no_fields name = []
values_of (field n v fields) name =
    let rest = values_of fields name in if bytes_eq n name then v ∷ rest else rest

abbrev pub head : List Bson → Option Bson
head [] = none
head (v ∷ vs) = some v

abbrev pub tail : List Bson → List Bson
tail [] = []
tail (v ∷ vs) = vs

-- The operations on the table.
abbrev pub added : Bytes → Bson → (Bytes → List Bson) → Bytes → List Bson
added name v table key = table key ++ (if bytes_eq name key then v ∷ [] else [])

abbrev pub removed : Bytes → (Bytes → List Bson) → Bytes → List Bson
removed name table key = if bytes_eq name key then [] else table key

abbrev pub replaced : Bytes → Bson → (Bytes → List Bson) → Bytes → List Bson
replaced name v table key = if bytes_eq name key then v ∷ tail (table key) else table key

values_of-add :
    (d : Fields) (name : Bytes) (v : Bson) (key : Bytes)
    → values_of (add d name v) key ≡ added name v (values_of d) key
unfolding values_of add
values_of-add no_fields name v key = elim (Bool-cases (bytes_eq name key)) [
  | inl t ↦ rw t refl
  | inr f ↦ rw f refl
]
values_of-add (field n w d) name v key = elim (Bool-cases (bytes_eq n key)) [
  | inl t ↦ rw (t, values_of-add d name v key) refl
  | inr f ↦ rw (f, values_of-add d name v key) refl
]

get-values_of : (d : Fields) (name : Bytes) → get d name ≡ head (values_of d name)
unfolding get values_of
get-values_of no_fields name = refl
get-values_of (field n v d) name = elim (Bool-cases (bytes_eq n name)) [
  | inl t ↦ rw t refl
  | inr f ↦ rw f (get-values_of d name)
]

remove-head : (d : Fields) (name : Bytes) → (remove d name).0 ≡ head (values_of d name)
unfolding remove values_of
remove-head no_fields name = refl
remove-head (field n v d) name = elim (Bool-cases (bytes_eq n name)) [
  | inl t ↦ rw t refl
  | inr f ↦ rw f (remove-head d name)
]

eq_left : (n name key : Bytes) → bytes_eq n name ≡ true → bytes_eq n key ≡ bytes_eq name key
eq_left n name key h = ap (λ t. bytes_eq t key) (bytes_eq→eq n name h)

eq_right :
    (n name key : Bytes)
    → bytes_eq n name ≡ false
    → bytes_eq n key ≡ true
    → bytes_eq name key ≡ false
eq_right n name key f t = elim (Bool-cases (bytes_eq name key)) [
  | inr g ↦ g
  | inl g ↦ absurd (
      cc (
        sym f,
        ap (λ x. bytes_eq n x) (bytes_eq→eq n key t ∙ sym (bytes_eq→eq name key g)),
        bytes_eq_refl n,
      ))
]

values_of-remove :
    (d : Fields) (name key : Bytes)
    → values_of (remove d name).1 key ≡ removed name (values_of d) key
unfolding remove values_of
values_of-remove no_fields name key = elim (Bool-cases (bytes_eq name key)) [
  | inl t ↦ rw t refl
  | inr f ↦ rw f refl
]
values_of-remove (field n v d) name key =
    let ih = values_of-remove d name key in
    elim (Bool-cases (bytes_eq n name)) [
      | inl t ↦
          rw (t, eq_left n name key t)
            (elim (Bool-cases (bytes_eq name key)) [
              | inl u ↦ rw u (ih ∙ rw u refl)
              | inr g ↦ rw g (ih ∙ rw g refl)
            ])
      | inr f ↦ elim (Bool-cases (bytes_eq n key)) [
        | inl u ↦
            rw (f, u, eq_right n name key f u)
              (ap (λ t. v ∷ t) (ih ∙ rw (eq_right n name key f u) refl))
        | inr g ↦ rw (f, g) ih
      ]
    ]

values_of-replace :
    (d : Fields) (name : Bytes) (v : Bson) (key : Bytes)
    → values_of (replace d name v) key ≡ replaced name v (values_of d) key
unfolding replace values_of
values_of-replace no_fields name v key = refl
values_of-replace (field n w d) name v key =
    let ih = values_of-replace d name v key in
    elim (Bool-cases (bytes_eq n name)) [
      | inl t ↦
          rw (t, eq_left n name key t)
            (elim (Bool-cases (bytes_eq name key)) [ inl u ↦ rw u refl | inr g ↦ rw g refl ])
      | inr f ↦ elim (Bool-cases (bytes_eq n key)) [
        | inl u ↦
            rw (f, u, eq_right n name key f u)
              (ap (λ t. w ∷ t) (ih ∙ rw (eq_right n name key f u) refl))
        | inr g ↦ rw (f, g) ih
      ]
    ]

-- As a table from names to the lists of their values, a document has each of its operations: `add`
-- puts a value last under its name, `get` is the first value, `remove` returns the first value and
-- empties the name, and `replace` puts a value in the place of the first or alone; no other name
-- changes.
pub document_table :
    (d : Fields) (name : Bytes) (v : Bson)
    → ((key : Bytes) → values_of (add d name v) key ≡ added name v (values_of d) key)
      × (get d name ≡ head (values_of d name))
      × ((remove d name).0 ≡ head (values_of d name))
      × ((key : Bytes) → values_of (remove d name).1 key ≡ removed name (values_of d) key)
      × ((key : Bytes) → values_of (replace d name v) key ≡ replaced name v (values_of d) key)
document_table d name v = (
  values_of-add d name v,
  get-values_of d name,
  remove-head d name,
  values_of-remove d name,
  values_of-replace d name v,
)

-- `get_mut` finds the value that `get` finds, and a write through its reference is `replace`.
pub get_mut-replace :
    (d : Fields) (name : Bytes)
    → get_mut d name ≡ Option.map (λ v. (v, λ w. replace d name w)) (get d name)
unfolding get_mut get replace
get_mut-replace no_fields name = refl
get_mut-replace (field n v d) name = elim (Bool-cases (bytes_eq n name)) [
  | inl t ↦ rw t refl
  | inr f ↦
      rw (f, get_mut-replace d name)
        (elim (Option-cases (get d name)) [ inl e ↦ rw e refl | inr (u, e) ↦ rw e refl ])
]
