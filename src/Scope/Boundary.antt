-- ===== src/Scope/Boundary.antt =====
-- Which objects a team-scoped actor reaches, and how a list of group ids is split by that.
use nxs_anomaly.Base.{
  ℕ, ◌+◌, String, true, false, not, ◌≡◌, refl, sym, ◌∙◌, inl, inr, ◌⊎◌, ◌≢◌, ne→==_false, List, [],
  ◌∷◌, Option, none, some, arith, ◌==◌, if◌then◌else◌, contains, Bool-cases, if_cases, ne_of_test,
  false≢true, ==→eq,
}
use nxs_anomaly.Authz.{Actor, may_access_team}
use nxs_anomaly.Base.Json.{Row, str_val}
use nxs_anomaly.Authz.Access.{may_access_team_iff}
use nxs_anomaly.Scope.{
  EngineError, forbidden_team, not_found, validation, empty_ids, unavailable, Answer, answers,
  fails, Reads, item, authorize_item, owner_check, authorize_group, team_check,
  authorize_group_action, partition_ids, place, partition_authorized_groups,
}

-- How often a text stands in a list.
abbrev pub count : String → List String → ℕ
count a [] = 0
count a (x ∷ xs) = (if x == a then 1 else 0) + count a xs

-- Every id allowed passes the check, every id forbidden is refused by it.
abbrev pub Allowed : Reads → Actor → List String → Type 0
Allowed reads actor ids =
    (id : String) → contains id ids ≡ true → authorize_group_action reads actor id ≡ none

abbrev pub Forbidden : Reads → Actor → List String → Type 0
Forbidden reads actor ids =
    (id : String)
    → contains id ids ≡ true
    → (c : String) × (authorize_group_action reads actor id ≡ some (forbidden_team c))

-- How a partition of ids relates to them.
abbrev pub IsSplit : Reads → Actor → List String → List String × List String → Type 0
IsSplit reads actor ids (allowed, forbidden) =
    ((k : String) → count k ids ≡ count k allowed + count k forbidden)
    × Allowed reads actor allowed
    × Forbidden reads actor forbidden

abbrev pub OfAnswer {ℓ κ} : {A : Type ℓ} (P : A → Type κ) → Answer A → Type κ
OfAnswer P (answers a) = P a
OfAnswer P (fails e) = Unit

pub ap_answer {ℓ κ} :
    {A : Type ℓ} (P : A → Type κ) {a : Answer A} {x : A} → a ≡ answers x → OfAnswer P a → P x
ap_answer P e h = rw e at h

head_or_tail {ℓ} :
    (P : String → Type ℓ) (id : String) (ids : List String)
    → P id
    → ((k : String) → contains k ids ≡ true → P k)
    → (k : String) → contains k (id ∷ ids) ≡ true
    → P k
head_or_tail P id ids here there k h = elim (Bool-cases (id == k)) [
  | inl hit ↦ rw (← ==→eq id k hit) here
  | inr miss ↦ there k (rw miss at h)
]

place-IsSplit :
    (reads : Reads) (actor : Actor) (id : String) (ids : List String) (o : Option EngineError)
    → authorize_group_action reads actor id ≡ o
    → (rest : Answer (List String × List String)) → OfAnswer (IsSplit reads actor ids) rest
    → OfAnswer (IsSplit reads actor (id ∷ ids)) (place id o rest)
unfolding place
place-IsSplit reads actor id ids none e (answers (allowed, forbidden)) (c, a, f) = (
  λ k. ground (arith, c k),
  head_or_tail (λ j. authorize_group_action reads actor j ≡ none) id allowed e a,
  f,
)
place-IsSplit reads actor id ids none e (fails x) s = tt
place-IsSplit reads actor id ids (some (forbidden_team t)) e (answers (allowed, forbidden))
      (c, a, f) =
    (
      λ k. ground (arith, c k),
      a,
      head_or_tail
          (λ j. (t : String) × (authorize_group_action reads actor j ≡ some (forbidden_team t))) id
          forbidden (t, e) f,
    )
place-IsSplit reads actor id ids (some (forbidden_team t)) e (fails x) s = tt
place-IsSplit reads actor id ids (some (not_found g)) e rest s = tt
place-IsSplit reads actor id ids (some (validation v)) e rest s = tt
place-IsSplit reads actor id ids (some empty_ids) e rest s = tt
place-IsSplit reads actor id ids (some unavailable) e rest s = tt

partition_ids-IsSplit :
    (reads : Reads) (actor : Actor) (ids : List String)
    → OfAnswer (IsSplit reads actor ids) (partition_ids reads actor ids)
unfolding partition_ids
partition_ids-IsSplit reads actor [] =
    (λ k. refl, λ k h. absurd (false≢true h), λ k h. absurd (false≢true h))
partition_ids-IsSplit reads actor (id ∷ ids) =
    place-IsSplit reads actor id ids _ refl _ (partition_ids-IsSplit reads actor ids)

unscoped_allowed :
    (reads : Reads) (actor : Actor) (id : String)
    → not actor.team_scoped ≡ true
    → authorize_group_action reads actor id ≡ none
unfolding authorize_group_action
unscoped_allowed reads actor id h = rw h

partition_OfAnswer :
    (reads : Reads) (actor : Actor) (ids : List String)
    → OfAnswer (IsSplit reads actor ids) (partition_authorized_groups reads actor ids)
unfolding partition_authorized_groups
partition_OfAnswer reads actor ids =
    if_cases (OfAnswer (IsSplit reads actor ids)) (not actor.team_scoped)
      (λ free. (
        λ k. omega arith,
        λ id _. unscoped_allowed reads actor id free,
        λ id h. absurd (false≢true h),
      ))
      (λ _. partition_ids-IsSplit reads actor ids)

-- A batch that is answered is split without loss or repetition: every id stands in the two parts
-- together as often as in the request, those allowed pass the check of a single id, and those
-- forbidden are refused by it.
pub partition-IsSplit :
    (reads : Reads) (actor : Actor) (ids allowed forbidden : List String)
    → partition_authorized_groups reads actor ids ≡ answers (allowed, forbidden)
    → ((k : String) → count k ids ≡ count k allowed + count k forbidden)
      × Allowed reads actor allowed
      × Forbidden reads actor forbidden
partition-IsSplit reads actor ids allowed forbidden e =
    ap_answer (IsSplit reads actor ids) e (partition_OfAnswer reads actor ids)

-- The check of a group that is there: nothing for an actor that is not scoped, else the check of
-- its integration.
group_check :
    (reads : Reads) (actor : Actor) (id : String) (group : Row) (P : Option EngineError → Type 0)
    → reads "alert_groups" id ≡ item (some group)
    → (actor.team_scoped ≡ false → P none)
    → P (
        if str_val group "integration_id" == ""
        then none
        else owner_check actor "alert_groups"
            (reads "integrations" (str_val group "integration_id")))
    → P (authorize_group_action reads actor id)
unfolding authorize_group_action authorize_group authorize_item
group_check reads actor id group P at free scoped =
    if_cases P (not actor.team_scoped) (λ h. free (ground arith))
      λ _. rw at (if_cases P (not actor.team_scoped) (λ h. free (ground arith)) (λ _. scoped))

-- A group of another team is out of reach: a scoped actor is refused when the group's integration
-- has a team and the actor is not in it.
pub other_team_refused :
    (reads : Reads) (actor : Actor) (id : String) (group integration : Row)
    → actor.team_scoped ≡ true
    → reads "alert_groups" id ≡ item (some group)
    → str_val group "integration_id" ≢ ""
    → reads "integrations" (str_val group "integration_id") ≡ item (some integration)
    → may_access_team actor (str_val integration "team_id") ≡ false
    → authorize_group_action reads actor id ≡ some (forbidden_team "alert_groups")
unfolding owner_check team_check
other_team_refused reads actor id group integration scoped at ne owner out =
    group_check reads actor id group (λ o. o ≡ some (forbidden_team "alert_groups")) at
      (λ free. absurd (false≢true (sym free ∙ scoped)))
      (rw (ne→==_false _ _ ne, owner)
        (if_cases (λ o. o ≡ some (forbidden_team "alert_groups"))
          (may_access_team actor (str_val integration "team_id"))
          (λ in_team. absurd (false≢true (sym out ∙ in_team))) (λ _. refl)))

-- What is not assigned to a team is in everyone's reach: a group that has no integration, or whose
-- integration is gone or has no team.
pub unassigned_allowed :
    (reads : Reads) (actor : Actor) (id : String) (group : Row)
    → reads "alert_groups" id ≡ item (some group)
    → (str_val group "integration_id" ≡ "")
      ⊎ (reads "integrations" (str_val group "integration_id") ≡ item none)
      ⊎ ((integration : Row) × (reads "integrations" (str_val group "integration_id")
            ≡ item (some integration))
          × (str_val integration "team_id" ≡ ""))
    → authorize_group_action reads actor id ≡ none
unfolding owner_check team_check
unassigned_allowed reads actor id group at why =
    group_check reads actor id group (λ o. o ≡ none) at (λ _. refl)
      (if_cases (λ o. o ≡ none) (str_val group "integration_id" == "") (λ _. refl)
        λ miss. elim why [
          | inl e ↦ absurd (ne_of_test miss e)
          | inr (inl e) ↦ rw e
          | inr (inr (row, e, f)) ↦ rw e (
              if_cases (λ o. o ≡ none) (may_access_team actor (str_val row "team_id")) (λ _. refl)
                (λ out. absurd (
                  false≢true (
                    sym out
                    ∙ (may_access_team_iff actor (str_val row "team_id")).1 (inr (inl f))))))
        ])
