-- ===== src/Xds/Json.antt =====
-- The JSON values that admin/internal/xds/build.go writes as `obj`, a map from names to values.
use Prim.Native.String.{String}
use sandcastle.Prelude.{
  ℕ, Bool, Option, none, some, List, [], ◌∷◌, ◌++◌, Str, codes, str_eq, if◌then◌else◌,
}

mutual
  pub data Json : Type 0 where
    text : Str → Json
    int : ℕ → Json
    flag : Bool → Json
    list : Items → Json
    object : Fields → Json

  pub data Items : Type 0 where
    no_items : Items
    item : Json → Items → Items

  pub data Fields : Type 0 where
    no_fields : Fields
    field : Str → Json → Fields → Fields

unfoldable pub items : List Json → Items
items [] = no_items
items (v ∷ vs) = item v (items vs)

unfoldable pub fields : List (Str × Json) → Fields
fields [] = no_fields
fields ((k, v) ∷ kvs) = field k v (fields kvs)

-- obj{…} and []obj{…}
abbrev pub obj : List (Str × Json) → Json
obj kvs = object (fields kvs)

abbrev pub arr : List Json → Json
arr vs = list (items vs)

infix 7 ◌:=◌
abbrev pub ◌:=◌ : String → Json → Str × Json
k := v = (codes k, v)

abbrev pub lit : String → Json
lit s = text (codes s)

-- typed: a message with its type.
unfoldable pub typed : String → List (Str × Json) → Json
typed t kvs = obj (("@type" := text (codes "type.googleapis.com/" ++ codes t)) ∷ kvs)

-- The value of a name.
unfoldable pub value_at : Str → Fields → Option Json
value_at k no_fields = none
value_at k (field j v fs) = if str_eq j k then some v else value_at k fs

unfoldable pub at : Str → Option Json → Option Json
unfolding value_at
at k (some (object fs)) = value_at k fs
at k (some (text s)) = none
at k (some (int n)) = none
at k (some (flag b)) = none
at k (some (list vs)) = none
at k none = none
