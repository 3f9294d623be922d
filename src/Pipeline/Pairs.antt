-- ===== src/Pipeline/Pairs.antt =====
-- The pairs that a `set` or `rename` stage is compiled to are never empty.
use nxs_anomaly.Base.{◌≢◌, String, List, [], ◌∷◌, ◌==◌, if_cases}
use nxs_anomaly.Base.Decoded.{Json, print_value}
use nxs_anomaly.Pipeline.Parts.{◌>>=◌}
use nxs_anomaly.Pipeline.Compile.{add_pair, read_pairs, put_pair, label_name}
use nxs_anomaly.Pipeline.WellFormed.{Accepts, Accepts-bind}

put_pair-ne : (k v : String) (ps : List (String × String)) → put_pair k v ps ≢ []
unfolding put_pair
put_pair-ne k v [] = λ e. cc
put_pair-ne k v ((j, w) ∷ rest) = if_cases (λ l. l ≢ []) (j == k) (λ _ e. cc) (λ _ e. cc)

add_pair-ne :
    (kind name v : String) (ps : List (String × String))
    → Accepts (λ l. l ≢ []) (add_pair kind name v ps)
unfolding add_pair
add_pair-ne kind name v ps =
    if_cases (Accepts (λ l. l ≢ [])) (name == "") (λ _. tt) (λ _. put_pair-ne name v ps)

read_pairs-ne :
    (kind : String) (entries : List (String × Json)) (ps : List (String × String))
    → ps ≢ []
    → Accepts (λ l. l ≢ []) (read_pairs kind entries ps)
unfolding read_pairs
read_pairs-ne kind [] ps h = h
read_pairs-ne kind ((k, v) ∷ rest) ps h =
    Accepts-bind (λ l. l ≢ []) (λ l. l ≢ []) (add_pair kind (label_name k) (print_value v) ps) _
      (add_pair-ne kind (label_name k) (print_value v) ps) (read_pairs-ne kind rest)

pub first_pairs-ne :
    (kind k : String) (v : Json) (rest : List (String × Json))
    → Accepts
        (λ l. l ≢ [])
        (add_pair kind (label_name k) (print_value v) [] >>= read_pairs kind rest)
first_pairs-ne kind k v rest =
    Accepts-bind (λ l. l ≢ []) (λ l. l ≢ []) (add_pair kind (label_name k) (print_value v) []) _
      (add_pair-ne kind (label_name k) (print_value v) []) (read_pairs-ne kind rest)
