-- ===== src/Base/Json.antt =====
-- Decoded JSON rows (`map[string]any`), the readers of internal/utils/utils.go over them, and the
-- conversions of internal/model/alertgroup.go. A row is a function from keys to values, so the
-- order of its keys, which Go leaves open, does not exist. Numbers in these rows are counts, and
-- are natural numbers.
use Prim.Native.Nat.{ℕ}
use Prim.Native.String.{String}
use mathlib.Core.Bool.{Bool, true, false}
use mathlib.Core.Option.{Option, none, some}
use mathlib.Core.List.{List, [], ◌∷◌, map}
use nxs_anomaly.Base.Tests.{◌==◌, if◌then◌else◌}
use nxs_anomaly.Base.Text.{concat, join, decimal}

-- What stands in a nested object of these rows.
pub data Scalar : Type 0 where
  text : String → Scalar
  number : ℕ → Scalar
  texts : List String → Scalar
  flag : Bool → Scalar

-- One entry of a group's embedded log.
pub record LogEntry : Type 0 where
  pub id : String
  pub kind : String
  pub message : String
  pub details : List (String × Scalar)
  pub created_at : String
  pub actor : List (String × Scalar)

pub data Value : Type 0 where
  null : Value
  str : String → Value
  num : ℕ → Value
  bool : Bool → Value
  list : List String → Value
  obj : List (String × Scalar) → Value
  entries : List LogEntry → Value

abbrev pub Row : Type 0
Row = String → Option Value

abbrev pub empty_row : Row
empty_row k = none

-- `m[key] = v`.
abbrev pub put : String → Value → Row → Row
put key v m k = if key == k then some v else m k

format_scalar : Scalar → String
format_scalar (text s) = s
format_scalar (number n) = decimal n
format_scalar (texts xs) = concat ("[" ∷ join " " xs ∷ "]" ∷ [])
format_scalar (flag true) = "true"
format_scalar (flag false) = "false"

format_field : String × Scalar → String
unfolding format_scalar
format_field (k, v) = concat (k ∷ ":" ∷ format_scalar v ∷ [])

format_obj : List (String × Scalar) → String
unfolding format_field
format_obj fields = concat ("map[" ∷ join " " (map format_field fields) ∷ "]" ∷ [])

format_entry : LogEntry → String
unfolding format_obj
format_entry e = concat (
    "map[actor:"
    ∷ format_obj e.actor
    ∷ " created_at:"
    ∷ e.created_at
    ∷ " data:"
    ∷ format_obj e.details
    ∷ " id:"
    ∷ e.id
    ∷ " message:"
    ∷ e.message
    ∷ " type:"
    ∷ e.kind
    ∷ "]"
    ∷ [])

-- `scalarString`: the text of a value, an absent one being empty. Objects list their fields in
-- key order, as `fmt` prints them.
unfoldable pub scalar_string : Value → String
unfolding format_obj format_entry
scalar_string null = ""
scalar_string (str s) = s
scalar_string (num n) = decimal n
scalar_string (bool true) = "true"
scalar_string (bool false) = "false"
scalar_string (list xs) = concat ("[" ∷ join " " xs ∷ "]" ∷ [])
scalar_string (obj fields) = format_obj fields
scalar_string (entries es) = concat ("[" ∷ join " " (map format_entry es) ∷ "]" ∷ [])

str_of : Option Value → String
unfolding scalar_string
str_of none = ""
str_of (some v) = scalar_string v

-- `StrVal`.
unfoldable pub str_val : Row → String → String
unfolding str_of
str_val m key = str_of (m key)

int_of : Option Value → ℕ
int_of (some (num n)) = n
int_of _ = 0

-- `IntVal`.
unfoldable pub int_val : Row → String → ℕ
unfolding int_of
int_val m key = int_of (m key)

bool_of : Option Value → Bool → Bool
bool_of (some (bool b)) d = b
bool_of _ d = d

-- `BoolVal`.
unfoldable pub bool_val : Row → String → Bool → Bool
unfolding bool_of
bool_val m key d = bool_of (m key) d

-- `asString`.
unfoldable pub as_string : Option Value → String
as_string (some (str s)) = s
as_string _ = ""

-- `asInt`.
unfoldable pub as_int : Option Value → ℕ
as_int (some (num n)) = n
as_int _ = 0

-- `strSlice`, over lists of texts.
unfoldable pub str_slice : Option Value → List String
str_slice (some (list xs)) = xs
str_slice _ = []
