-- ===== src/Group/Codec/RoundTrip.antt =====
-- What loading and saving a group keeps.
use nxs_anomaly.Base.{
  ℕ, String, Bool, true, false, ◌≡◌, refl, sym, ◌∙◌, ap, fun_ext, inl, inr, List, [], ◌∷◌, Option,
  none, some, arith, ◌==◌, if◌then◌else◌, contains, Bool-cases, ==→eq,
}
use nxs_anomaly.Base.Json.{Scalar, LogEntry, Value, str, num, Row, as_string, as_int}
use nxs_anomaly.Group.State.{Group}
use nxs_anomaly.Group.Codec.{
  promoted_keys, as_obj, as_list, as_entries, new_ag_data, of_obj, of_list, of_entries,
  promoted_fields, find_field, or_else, to_map,
}

-- Every field of the list is what the row holds under its key.
abbrev Holds : Row → List (String × Value) → Type 0
Holds m [] = Unit {0}
Holds m ((k, v) ∷ rest) = (m k ≡ some v) × Holds m rest

abbrev keys : List (String × Value) → List String
keys [] = []
keys ((k, v) ∷ rest) = k ∷ keys rest

find_field-Holds :
    (m : Row) (k : String) (fields : List (String × Value))
    → Holds m fields
    → contains k (keys fields) ≡ true
    → find_field k fields ≡ m k
find_field-Holds m k [] h c = cc
find_field-Holds m k ((j, v) ∷ rest) h c = elim (Bool-cases (j == k)) [
  | inl hit ↦ rw (hit, ← ==→eq j k hit, h.0)
  | inr miss ↦ rw miss (find_field-Holds m k rest h.1 (rw miss at c))
]

find_field_missing :
    (k : String) (fields : List (String × Value))
    → contains k (keys fields) ≡ false
    → find_field k fields ≡ none
find_field_missing k [] c = refl
find_field_missing k ((j, v) ∷ rest) c = elim (Bool-cases (j == k)) [
  | inl hit ↦ ground (arith, hit)
  | inr miss ↦ rw miss (find_field_missing k rest (rw miss at c))
]

-- A row in the shape that every stored group has: the promoted keys are there, at their types.
pub record IsGroupRow (m : Row) : Type 0 where
  pub id : (s : String) × (m "id" ≡ some (str s))
  pub route_id : (s : String) × (m "route_id" ≡ some (str s))
  pub dedupe_key : (s : String) × (m "dedupe_key" ≡ some (str s))
  pub status : (s : String) × (m "status" ≡ some (str s))
  pub title : (s : String) × (m "title" ≡ some (str s))
  pub severity : (s : String) × (m "severity" ≡ some (str s))
  pub created_at : (s : String) × (m "created_at" ≡ some (str s))
  pub updated_at : (s : String) × (m "updated_at" ≡ some (str s))
  pub last_received_at : (s : String) × (m "last_received_at" ≡ some (str s))
  pub alert_count : (n : ℕ) × (m "alert_count" ≡ some (num n))
  pub current_step : (n : ℕ) × (m "current_step" ≡ some (num n))
  pub repeat_count : (n : ℕ) × (m "repeat_count" ≡ some (num n))
  pub labels : (fields : Option (List (String × Scalar))) × (m "labels" ≡ some (of_obj fields))
  pub alert_ids : (xs : Option (List String)) × (m "alert_ids" ≡ some (of_list xs))
  pub logs : (es : Option (List LogEntry)) × (m "logs" ≡ some (of_entries es))

as_string-str :
    (o : Option Value) → (s : String) × (o ≡ some (str s)) → o ≡ some (str (as_string o))
unfolding as_string
as_string-str o (s, e) = rw e

as_int-num : (o : Option Value) → (n : ℕ) × (o ≡ some (num n)) → o ≡ some (num (as_int o))
unfolding as_int
as_int-num o (n, e) = rw e

of_obj-as_obj :
    (o : Option Value)
    → (x : Option (List (String × Scalar))) × (o ≡ some (of_obj x))
    → o ≡ some (of_obj (as_obj o))
of_obj-as_obj o (none, e) = rw e
of_obj-as_obj o (some x, e) = rw e

of_list-as_list :
    (o : Option Value)
    → (x : Option (List String)) × (o ≡ some (of_list x))
    → o ≡ some (of_list (as_list o))
of_list-as_list o (none, e) = rw e
of_list-as_list o (some x, e) = rw e

of_entries-as_entries :
    (o : Option Value)
    → (x : Option (List LogEntry)) × (o ≡ some (of_entries x))
    → o ≡ some (of_entries (as_entries o))
of_entries-as_entries o (none, e) = rw e
of_entries-as_entries o (some x, e) = rw e

promoted-Holds : (m : Row) → IsGroupRow m → Holds m (promoted_fields (new_ag_data m))
unfolding new_ag_data
promoted-Holds m r = assumption (
  as_string-str (m "id") r.id,
  as_string-str (m "route_id") r.route_id,
  as_string-str (m "dedupe_key") r.dedupe_key,
  as_string-str (m "status") r.status,
  as_string-str (m "title") r.title,
  as_string-str (m "severity") r.severity,
  as_string-str (m "created_at") r.created_at,
  as_string-str (m "updated_at") r.updated_at,
  as_string-str (m "last_received_at") r.last_received_at,
  as_int-num (m "alert_count") r.alert_count,
  as_int-num (m "current_step") r.current_step,
  as_int-num (m "repeat_count") r.repeat_count,
  of_obj-as_obj (m "labels") r.labels,
  of_list-as_list (m "alert_ids") r.alert_ids,
  of_entries-as_entries (m "logs") r.logs,
  tt,
)

as_obj-of_obj : (x : Option (List (String × Scalar))) → as_obj (some (of_obj x)) ≡ x
as_obj-of_obj none = refl
as_obj-of_obj (some x) = refl

as_list-of_list : (x : Option (List String)) → as_list (some (of_list x)) ≡ x
as_list-of_list none = refl
as_list-of_list (some x) = refl

as_entries-of_entries : (x : Option (List LogEntry)) → as_entries (some (of_entries x)) ≡ x
as_entries-of_entries none = refl
as_entries-of_entries (some x) = refl

merge :
    (promoted : Bool) (original found : Option Value)
    → (promoted ≡ true → found ≡ original)
    → (promoted ≡ false → found ≡ none)
    → or_else (if promoted then none else original) found ≡ original
merge true original found hit miss = hit refl
merge false none found hit miss = miss refl
merge false (some v) found hit miss = refl

-- A stored group row that has every promoted key at its type, loaded and saved again, has the
-- value it had under every key, also under the keys that the model does not know.
pub to_map-new_ag_data : (m : Row) → IsGroupRow m → (k : String) → to_map (new_ag_data m) k ≡ m k
unfolding to_map new_ag_data
to_map-new_ag_data m r k =
    merge (contains k promoted_keys) (m k) _
      (find_field-Holds m k (promoted_fields (new_ag_data m)) (promoted-Holds m r))
      (find_field_missing k (promoted_fields (new_ag_data m)))

strip :
    (promoted : Bool) (extra found : Option Value)
    → (promoted ≡ true → extra ≡ none)
    → (promoted ≡ false → found ≡ none)
    → (if promoted then none else or_else extra found) ≡ extra
strip true extra found hit miss = sym (hit refl)
strip false none found hit miss = miss refl
strip false (some v) found hit miss = refl

-- A group whose extra keys are not promoted ones is recovered whole from the row it is saved as.
pub new_ag_data-to_map :
    (g : Group)
    → ((k : String) → contains k promoted_keys ≡ true → g.extra k ≡ none)
    → new_ag_data (to_map g) ≡ g
unfolding to_map new_ag_data as_string as_int
new_ag_data-to_map g h = λ i. record {
  id = ap (λ o. as_string (or_else o (some (str g.id)))) (h "id" refl) i;
  route_id = ap (λ o. as_string (or_else o (some (str g.route_id)))) (h "route_id" refl) i;
  dedupe_key = ap (λ o. as_string (or_else o (some (str g.dedupe_key)))) (h "dedupe_key" refl) i;
  status = ap (λ o. as_string (or_else o (some (str g.status)))) (h "status" refl) i;
  title = ap (λ o. as_string (or_else o (some (str g.title)))) (h "title" refl) i;
  severity = ap (λ o. as_string (or_else o (some (str g.severity)))) (h "severity" refl) i;
  created_at = ap (λ o. as_string (or_else o (some (str g.created_at)))) (h "created_at" refl) i;
  updated_at = ap (λ o. as_string (or_else o (some (str g.updated_at)))) (h "updated_at" refl) i;
  last_received_at =
      ap (λ o. as_string (or_else o (some (str g.last_received_at)))) (h "last_received_at" refl) i;
  alert_count = ap (λ o. as_int (or_else o (some (num g.alert_count)))) (h "alert_count" refl) i;
  current_step = ap (λ o. as_int (or_else o (some (num g.current_step)))) (h "current_step" refl) i;
  repeat_count = ap (λ o. as_int (or_else o (some (num g.repeat_count)))) (h "repeat_count" refl) i;
  labels =
      (ap (λ o. as_obj (or_else o (some (of_obj g.labels)))) (h "labels" refl)
          ∙ as_obj-of_obj g.labels)
        i;
  alert_ids =
      (ap (λ o. as_list (or_else o (some (of_list g.alert_ids)))) (h "alert_ids" refl)
          ∙ as_list-of_list g.alert_ids)
        i;
  logs =
      (ap (λ o. as_entries (or_else o (some (of_entries g.logs)))) (h "logs" refl)
          ∙ as_entries-of_entries g.logs)
        i;
  extra =
      fun_ext
        (λ k.
          strip (contains k promoted_keys) (g.extra k) _ (h k)
            (find_field_missing k (promoted_fields g)))
        i;
}
