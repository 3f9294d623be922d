-- ===== src/Base/Text.antt =====
-- Texts: what the source uses of `fmt` and `strings`.
use Prim.Native.Nat.{ℕ, Ordering, zero, suc, ◌-◌, ◌/◌, ◌%◌}
use Prim.Native.Char.{Char, code, len_utf8}
use Prim.Native.String.{String}
use Prim.Native.String
use mathlib.Core.Bool.{Bool, true, ◌&&◌, ◌||◌}
use mathlib.Core.Option.{Option, none, some}
use mathlib.Core.List.{List, [], ◌∷◌}
use nxs_anomaly.Base.Tests.{if◌then◌else◌, ltb, leb, eqb, ◌==◌}

abbrev pub concat : List String → String
concat [] = ""
concat (s ∷ rest) = String.◌++◌ s (concat rest)

abbrev pub join : String → List String → String
join sep [] = ""
join sep (s ∷ []) = s
join sep (s ∷ t ∷ rest) = String.◌++◌ s (String.◌++◌ sep (join sep (t ∷ rest)))

digit : ℕ → String
digit zero = "0"
digit (suc zero) = "1"
digit (suc (suc zero)) = "2"
digit (suc (suc (suc zero))) = "3"
digit (suc (suc (suc (suc zero)))) = "4"
digit (suc (suc (suc (suc (suc zero))))) = "5"
digit (suc (suc (suc (suc (suc (suc zero)))))) = "6"
digit (suc (suc (suc (suc (suc (suc (suc zero))))))) = "7"
digit (suc (suc (suc (suc (suc (suc (suc (suc zero)))))))) = "8"
digit _ = "9"

-- A number has at most as many digits as it has units, plus one for 0.
decimal_from : ℕ → ℕ → String
unfolding digit
decimal_from zero n = ""
decimal_from (suc fuel) n =
    let more = decimal_from fuel (n / 10) in
    if ltb n 10 then digit n else String.◌++◌ more (digit (n % 10))

unfoldable pub decimal : ℕ → String
unfolding decimal_from
decimal n = decimal_from (suc n) n

-- `unicode.IsSpace`.
is_space : Char → Bool
is_space c =
    let n = code c in
    (leb 9 n && leb n 13)
    || eqb n 32
    || eqb n 0x85
    || eqb n 0xA0
    || eqb n 0x1680
    || (leb 0x2000 n && leb n 0x200A)
    || eqb n 0x2028
    || eqb n 0x2029
    || eqb n 0x202F
    || eqb n 0x205F
    || eqb n 0x3000

trim_left : String → String
unfolding is_space
trim_left String.[] = ""
trim_left (String.◌∷◌ c s) = let rest = trim_left s in if is_space c then rest else String.◌∷◌ c s

or_cut : Bool → Char → String → String
or_cut true c String.[] = ""
or_cut _ c s = String.◌∷◌ c s

trim_right : String → String
unfolding is_space or_cut
trim_right String.[] = ""
trim_right (String.◌∷◌ c s) = or_cut (is_space c) c (trim_right s)

-- `strings.TrimSpace`.
unfoldable pub trim_space : String → String
unfolding trim_left trim_right
trim_space s = trim_right (trim_left s)

-- `strings.CutPrefix`: what follows the prefix, if it is there.
unfoldable pub cut_prefix : String → String → Option String
cut_prefix String.[] s = some s
cut_prefix (String.◌∷◌ p prefix) String.[] = none
cut_prefix (String.◌∷◌ p prefix) (String.◌∷◌ c s) =
    if eqb (code p) (code c) then cut_prefix prefix s else none

or_whole : String → Option String → String
or_whole s none = s
or_whole s (some rest) = rest

-- `strings.TrimPrefix`.
unfoldable pub trim_prefix : String → String → String
unfolding or_whole cut_prefix
trim_prefix prefix s = or_whole s (cut_prefix prefix s)

-- `strDefault`.
abbrev pub str_default : String → String → String
str_default s d = if s == "" then d else s

-- The places that `strip_zeros` may take off.
strip_zeros : ℕ → ℕ → ℕ
strip_zeros zero n = n
strip_zeros (suc fuel) n =
    let shorter = strip_zeros fuel (n / 10) in if eqb (n % 10) 0 then shorter else n

with_point : String → String
with_point String.[] = ""
with_point (String.◌∷◌ c String.[]) = String.◌∷◌ c ""
with_point (String.◌∷◌ c s) = String.◌∷◌ c (String.◌++◌ "." s)

-- A whole `float64` as `%v` prints it: with an exponent from seven digits on.
unfoldable pub general : ℕ → String
unfolding decimal strip_zeros with_point
general n =
    let exponent = String.count (decimal n) - 1 in
    if ltb n 1_000_000
    then decimal n
    else concat (
        with_point (decimal (strip_zeros n n))
        ∷ "e+"
        ∷ (if ltb exponent 10 then "0" else "")
        ∷ decimal exponent
        ∷ [])

-- The longest start of a text that has at most so many bytes and ends with a whole character: what is
-- left of `v[:max]` when the bytes of a character that was cut are dropped.
unfoldable pub cut : ℕ → String → String
cut max String.[] = ""
cut max (String.◌∷◌ c s) =
    if leb (len_utf8 c) max then String.◌∷◌ c (cut (max - len_utf8 c) s) else ""

unfoldable pub insert_text : String → List String → List String
insert_text a [] = a ∷ []
insert_text a (b ∷ rest) =
    let later = insert_text a rest in
    elim (String.compare a b) [ Ordering.lt ↦ a ∷ b ∷ rest | _ ↦ b ∷ later ]

-- `sort.Strings`.
unfoldable pub sort_texts : List String → List String
unfolding insert_text
sort_texts [] = []
sort_texts (a ∷ rest) = insert_text a (sort_texts rest)
