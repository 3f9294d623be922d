-- ===== src/Pipeline/Document.antt =====
-- internal/engine/pipeline.go: the alert as a pipeline sees it, its fields, and the condition of a stage.
-- A regular expression is its pattern, and what Go's `regexp` does with it is an argument (Regexps). A
-- nil map of labels is `none`; writing to it panics.
use Prim.Native.String
use nxs_anomaly.Base.{
  ℕ, String, Bool, true, false, not, ◌&&◌, List, Option, none, some, leb, ◌==◌, if◌then◌else◌,
}

-- Go's `regexp`: `Compile` (does the pattern compile), `SubexpNames` (the whole match first),
-- `MatchString`, `FindStringSubmatch` and `ReplaceAllString`.
pub record Regexps : Type 0 where
  pub compiles : String → Bool
  pub subexp_names : String → List String
  pub match_string : String → String → Bool
  pub find_submatch : String → String → Option (List String)
  pub replace_all : String → String → String → String

-- `pipelineField`.
pub record PipelineField : Type 0 where
  pub label : String
  pub name : String

abbrev pub Labels : Type 0
Labels = String → Option String

abbrev pub put_label : String → String → Labels → Labels
put_label k v m j = if k == j then some v else m j

abbrev pub delete_label : String → Labels → Labels
delete_label k m j = if k == j then none else m j

-- `pipelineDoc`.
pub record PipelineDoc : Type 0 where
  pub title : String
  pub message : String
  pub severity : String
  pub labels : Option Labels

abbrev pub label_at : Option Labels → String → Option String
label_at none k = none
label_at (some m) k = m k

unfoldable pub get : PipelineField → PipelineDoc → Option String
get f d =
    if not (f.label == "")
    then label_at d.labels f.label
    else if f.name == "title"
    then some d.title
    else if f.name == "message"
    then some d.message
    else if f.name == "severity"
    then some d.severity
    else none

-- What a call may do beside its result: writing to a nil map panics.
pub data Panics {ℓ} (A : Type ℓ) : Type ℓ where
  returns : A → Panics A
  panics : Panics A

infixl 5 ◌>>=◌
abbrev pub ◌>>=◌ {ℓ κ} : {A : Type ℓ} {B : Type κ} → Panics A → (A → Panics B) → Panics B
returns a >>= f = f a
panics >>= f = panics

unfoldable pub write_label : String → String → PipelineDoc → Option Labels → Panics PipelineDoc
write_label k v d none = panics
write_label k v d (some m) = returns (record d { labels = some (put_label k v m) })

unfoldable pub set : PipelineField → String → PipelineDoc → Panics PipelineDoc
unfolding write_label
set f v d =
    if not (f.label == "")
    then write_label f.label v d d.labels
    else if f.name == "title"
    then returns (record d { title = v })
    else if f.name == "message"
    then returns (record d { message = v })
    else if f.name == "severity"
    then returns (record d { severity = v })
    else returns d

-- `pipelineCond`; its three tests are pointers.
pub record PipelineCond : Type 0 where
  pub field : PipelineField
  pub equals : Option String
  pub matches : Option String
  pub exists : Option Bool

abbrev pub max_field_len : ℕ
max_field_len = 16_384

unfoldable pub is_some {ℓ} : {A : Type ℓ} → Option A → Bool
is_some none = false
is_some (some a) = true

same_flag : Bool → Bool → Bool
same_flag true b = b
same_flag false b = not b

holds_of : (String → Bool) → Option String → Bool
holds_of p none = false
holds_of p (some v) = p v

test : Regexps → (exists : Option Bool) (equals matches : Option String) → Option String → Bool
unfolding is_some same_flag holds_of
test rx (some wanted) _ _ v = same_flag (is_some v) wanted
test rx none (some s) _ v = holds_of (λ t. t == s) v
test rx none none (some re) v =
    holds_of (λ t. leb (String.len t) max_field_len && rx.match_string re t) v
test rx none none none v = true

unfoldable pub eval : Regexps → Option PipelineCond → PipelineDoc → Bool
unfolding test get
eval rx none d = true
eval rx (some c) d = test rx c.exists c.equals c.matches (get c.field d)
