-- ===== src/Base/Decoded.antt =====
-- Decoded JSON of any shape (`any` after `json.Unmarshal`), as configuration holds it, and the readers
-- of internal/utils/utils.go over it. Numbers are whole. An object lists its fields in key order, each
-- key once; where the source ranges over a Go map, whose order is left open, the list is the order of
-- that run.
use Prim.Native.Nat.{ℕ, suc}
use Prim.Native.String.{String}
use mathlib.Core.Bool.{Bool, true, false}
use mathlib.Core.Option.{Option, none, some}
use mathlib.Core.List.{List, [], ◌∷◌}
use nxs_anomaly.Base.Tests.{◌==◌, if◌then◌else◌}
use nxs_anomaly.Base.Text.{concat, decimal, general}

-- `below n` is -(n + 1).
mutual
  pub data Json : Type 0 where
    null : Json
    text : String → Json
    number : ℕ → Json
    below : ℕ → Json
    flag : Bool → Json
    array : Items → Json
    object : Fields → Json

  pub data Items : Type 0 where
    nil : Items
    cons : Json → Items → Items

  pub data Fields : Type 0 where
    end : Fields
    field : String → Json → Fields → Fields

abbrev pub items : Items → List Json
items nil = []
items (cons x xs) = x ∷ items xs

abbrev pub fields : Fields → List (String × Json)
fields end = []
fields (field k v rest) = (k, v) ∷ fields rest

-- `m[key]`, with its second result.
unfoldable pub find : String → Fields → Option Json
find key end = none
find key (field k v rest) = if k == key then some v else find key rest

-- `%v`.
unfoldable mutual
  unfolding general

  pub print_value : Json → String
  print_value null = "<nil>"
  print_value (text s) = s
  print_value (number n) = general n
  print_value (below n) = concat ("-" ∷ general (suc n) ∷ [])
  print_value (flag true) = "true"
  print_value (flag false) = "false"
  print_value (array xs) = concat ("[" ∷ print_items "" xs ∷ "]" ∷ [])
  print_value (object fs) = concat ("map[" ∷ print_fields "" fs ∷ "]" ∷ [])

  pub print_items : String → Items → String
  print_items sep nil = ""
  print_items sep (cons x xs) = concat (sep ∷ print_value x ∷ print_items " " xs ∷ [])

  pub print_fields : String → Fields → String
  print_fields sep end = ""
  print_fields sep (field k v fs) =
      concat (sep ∷ k ∷ ":" ∷ print_value v ∷ print_fields " " fs ∷ [])

-- `scalarString`.
unfoldable pub scalar_text : Json → String
unfolding decimal print_value
scalar_text null = ""
scalar_text (number n) = decimal n
scalar_text (below n) = concat ("-" ∷ decimal (suc n) ∷ [])
scalar_text v = print_value v

text_of : Option Json → String
unfolding scalar_text
text_of none = ""
text_of (some v) = scalar_text v

-- `StrVal`.
unfoldable pub text_val : Fields → String → String
unfolding text_of find
text_val m key = text_of (find key m)

-- An `int` that is 0 where it is negative: the callers ask only whether it is positive.
positive_of : Option Json → ℕ
positive_of (some (number n)) = n
positive_of _ = 0

-- `IntVal`, where a caller treats a negative number like 0.
unfoldable pub positive_val : Fields → String → ℕ
unfolding positive_of find
positive_val m key = positive_of (find key m)

flag_of : Option Json → Bool → Bool
flag_of (some (flag b)) d = b
flag_of _ d = d

-- `BoolVal`.
unfoldable pub flag_val : Fields → String → Bool → Bool
unfolding flag_of find
flag_val m key d = flag_of (find key m) d

-- `m[key]` where the source asks `ok && v != nil`.
unfoldable pub present : Option Json → Option Json
present (some null) = none
present v = v

-- `anyList`: the entries of a list, and none of any other value.
abbrev pub list_of : Option Json → List Json
list_of (some (array xs)) = items xs
list_of _ = []

-- The entries that are objects.
abbrev pub objects : List Json → List Fields
objects [] = []
objects (object m ∷ rest) = m ∷ objects rest
objects (_ ∷ rest) = objects rest
