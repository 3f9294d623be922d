-- ===== src/Pipeline/Parts.antt =====
-- internal/engine/pipeline.go: the parts of a stage definition: its fields, its condition and its action.
-- An error message is a constructor of StageError.
use Prim.Native.String
use nxs_anomaly.Base.{
  ℕ, ◌+◌, String, Bool, true, ◌||◌, List, [], ◌∷◌, Option, none, some, ltb, eqb, ◌==◌,
  if◌then◌else◌, length,
}
use nxs_anomaly.Base.Text.{trim_space, cut_prefix, str_default}
use nxs_anomaly.Base.Decoded.{Json, object, Fields, find, present, print_value, text_val, flag_val}
use nxs_anomaly.Pipeline.Document.{Regexps, PipelineField, PipelineCond}

pub data StageError : Type 0 where
  label_needs_name pattern_too_long pattern_invalid pattern_required : StageError
  unknown_field : String → StageError
  if_not_object if_needs_test if_many_tests : StageError
  no_action : StageError
  many_actions : ℕ → StageError
  not_object : String → StageError
  no_named_groups : StageError
  many_groups : ℕ → StageError
  no_pairs : String → StageError
  empty_label_name : String → StageError
  remove_not_names max_not_positive drop_needs_if : StageError

pub data Checked {ℓ} (A : Type ℓ) : Type ℓ where
  accepted : A → Checked A
  refused : StageError → Checked A

infixl 5 ◌>>=◌
abbrev pub ◌>>=◌ {ℓ κ} : {A : Type ℓ} {B : Type κ} → Checked A → (A → Checked B) → Checked B
accepted a >>= f = f a
refused e >>= f = refused e

abbrev pub max_pattern_len : ℕ
max_pattern_len = 512

abbrev pub max_extracted_labels : ℕ
max_extracted_labels = 32

abbrev pub max_pipeline_stages : ℕ
max_pipeline_stages = 32

-- `compilePipelineRegex`, without its cache.
unfoldable pub compile_regex : Regexps → String → Checked String
compile_regex rx pattern =
    if ltb max_pattern_len (String.len pattern)
    then refused pattern_too_long
    else if rx.compiles pattern
    then accepted pattern
    else refused pattern_invalid

abbrev pub is_scalar_field : String → Bool
is_scalar_field s = s == "title" || s == "message" || s == "severity"

unfoldable pub label_field : String → Checked PipelineField
label_field rest =
    if rest == "" then refused label_needs_name else accepted (record { label = rest; name = "" })

unfoldable pub scalar_field : String → Checked PipelineField
scalar_field s =
    if is_scalar_field s
    then accepted (record { label = ""; name = s })
    else refused (unknown_field s)

unfoldable pub prefixed_field : String → Option String → Checked PipelineField
unfolding label_field scalar_field
prefixed_field s (some rest) = label_field (trim_space rest)
prefixed_field s none = scalar_field s

unfoldable pub parse_pipeline_field : String → Checked PipelineField
unfolding prefixed_field
parse_pipeline_field s = let t = trim_space s in prefixed_field t (cut_prefix "label:" t)

-- A field that a specification names, `title` where it names none.
unfoldable pub field_of : Fields → String → Checked PipelineField
unfolding parse_pipeline_field
field_of spec key = parse_pipeline_field (str_default (text_val spec key) "title")

unfoldable pub equals_of : Option Json → Option String
equals_of none = none
equals_of (some v) = some (print_value v)

unfoldable pub matches_of : Regexps → Option Json → Checked (Option String)
unfolding compile_regex
matches_of rx none = accepted none
matches_of rx (some v) = compile_regex rx (print_value v) >>= λ re. accepted (some re)

unfoldable pub exists_of : Fields → Option Json → Option Bool
exists_of m none = none
exists_of m (some v) = some (flag_val m "exists" true)

counted {ℓ} : {A : Type ℓ} → Option A → ℕ
counted none = 0
counted (some a) = 1

unfoldable pub count_tests : PipelineCond → ℕ
unfolding counted
count_tests c = counted c.equals + counted c.matches + counted c.exists

unfoldable pub one_test : PipelineCond → Checked PipelineCond
unfolding count_tests
one_test c =
    if eqb (count_tests c) 0
    then refused if_needs_test
    else if ltb 1 (count_tests c)
    then refused if_many_tests
    else accepted c

unfoldable pub compile_cond : Regexps → Json → Checked PipelineCond
unfolding field_of matches_of one_test
compile_cond rx (object m) = do
  f ← field_of m "field"
  re ← matches_of rx (present (find "matches" m))
  one_test (record {
    field = f;
    equals = equals_of (present (find "equals" m));
    matches = re;
    exists = exists_of m (present (find "exists" m));
  })
compile_cond rx _ = refused if_not_object

unfoldable pub cond_of : Regexps → Option Json → Checked (Option PipelineCond)
unfolding compile_cond
cond_of rx none = accepted none
cond_of rx (some v) = compile_cond rx v >>= λ c. accepted (some c)

abbrev pub pipeline_actions : List String
pipeline_actions = "extract" ∷ "set" ∷ "rename" ∷ "remove" ∷ "gsub" ∷ "truncate" ∷ "drop" ∷ []

unfoldable pub if_present : String → Option Json → List String → List String
if_present a none rest = rest
if_present a (some v) rest = a ∷ rest

unfoldable pub actions_found : Fields → List String → List String
unfolding if_present
actions_found m [] = []
actions_found m (a ∷ rest) = if_present a (present (find a m)) (actions_found m rest)

unfoldable pub one_action : List String → Checked String
one_action [] = refused no_action
one_action (a ∷ []) = accepted a
one_action (a ∷ b ∷ rest) = refused (many_actions (length (a ∷ b ∷ rest)))
