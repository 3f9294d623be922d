-- ===== src/Authz/Access.antt =====
-- What the roles of internal/authz/authz.go grant.
use text.Mathlib.TextEquality.{eq_iff}
use nxs_anomaly.Base.{
  String, true, false, ◌≡◌, refl, sym, ◌∙◌, ◌⊎◌, inl, inr, ◌↔◌, List, [], ◌∷◌, arith, leb, ◌==◌,
  if◌then◌else◌, contains, Bool-cases, text_cases, ==_symm, ==→eq,
}
use nxs_anomaly.Authz.{
  Role, Action, Actor, rank, parse_role, is_valid, can, may_access_team, role_viewer,
  role_responder, role_editor, role_admin, action_read, action_respond, action_edit, action_admin,
}

-- The access matrix, written out role by role.
pub granted : Role → List Action
granted r =
    if r == role_admin
    then action_read ∷ action_respond ∷ action_edit ∷ action_admin ∷ []
    else if r == role_editor
    then action_read ∷ action_respond ∷ action_edit ∷ []
    else if r == role_responder
    then action_read ∷ action_respond ∷ []
    else if r == role_viewer
    then action_read ∷ []
    else []

-- The matrix against the ranks, for the four actions.
granted-rank :
    (r : Role)
    → (contains action_read (granted r) ≡ leb 1 (rank r))
      × (contains action_respond (granted r) ≡ leb 2 (rank r))
      × (contains action_edit (granted r) ≡ leb 3 (rank r))
      × (contains action_admin (granted r) ≡ leb 4 (rank r))
unfolding granted rank
granted-rank r = elim (text_cases r "admin" "editor" "responder" "viewer") [
  | inl e ↦ rw e (refl, refl, refl, refl)
  | inr (inl e) ↦ rw e (refl, refl, refl, refl)
  | inr (inr (inl e)) ↦ rw e (refl, refl, refl, refl)
  | inr (inr (inr (inl e))) ↦ rw e (refl, refl, refl, refl)
  | inr (inr (inr (inr (a, d, p, v)))) ↦ rw (a, d, p, v, granted, rank) (refl, refl, refl, refl)
]

granted_unknown :
    (r : Role) (action : Action)
    → (action_read == action) ≡ false
    → (action_respond == action) ≡ false
    → (action_edit == action) ≡ false
    → (action_admin == action) ≡ false
    → contains action (granted r) ≡ false
unfolding granted
granted_unknown r action a b c d = elim (text_cases r "admin" "editor" "responder" "viewer") [
  | inl e ↦ rw e (rw (a, b, c, d))
  | inr (inl e) ↦ rw e (rw (a, b, c))
  | inr (inr (inl e)) ↦ rw e (rw (a, b))
  | inr (inr (inr (inl e))) ↦ rw e (rw a)
  | inr (inr (inr (inr (x, y, p, v)))) ↦ rw (x, y, p, v, granted)
]

-- An actor may perform an action exactly when the matrix lists it for the actor's role.
pub can-granted : (a : Actor) (action : Action) → can a action ≡ contains action (granted a.role)
unfolding can
can-granted a action = elim (text_cases action "read" "respond" "edit" "admin") [
  | inl e ↦ rw (e, can) (sym (granted-rank a.role).0)
  | inr (inl e) ↦ rw (e, can) (sym (granted-rank a.role).1)
  | inr (inr (inl e)) ↦ rw (e, can) (sym (granted-rank a.role).2)
  | inr (inr (inr (inl e))) ↦ rw (e, can) (sym (granted-rank a.role).3)
  | inr (inr (inr (inr (r, p, e, d)))) ↦
      rw (r, p, e, d, can)
        (sym (
          granted_unknown a.role action (==_symm _ _ ∙ r) (==_symm _ _ ∙ p) (==_symm _ _ ∙ e)
            (==_symm _ _ ∙ d)))
]

-- An object is within an actor's reach exactly when the actor is not team-scoped, the object is
-- unassigned, or its team is one of the actor's.
pub may_access_team_iff :
    (a : Actor) (team : String)
    → (may_access_team a team ≡ true)
      ↔ ((a.team_scoped ≡ false) ⊎ (team ≡ "") ⊎ (contains team a.team_ids ≡ true))
unfolding may_access_team
may_access_team_iff a team = ground (arith, eq_iff team "")

-- Any text is read as a role that is one of the four or grants nothing, reading is idempotent, and
-- only the four names and the legacy `readonly` yield access.
pub parse_role_lem :
    (s : String)
    → (parse_role (parse_role s) ≡ parse_role s)
      × ((is_valid (parse_role s) ≡ true) ↔ (
          contains s (role_admin ∷ role_editor ∷ role_responder ∷ role_viewer ∷ "readonly" ∷ [])
          ≡ true))
unfolding parse_role is_valid
parse_role_lem s = elim (text_cases s "admin" "editor" "responder" "viewer") [
  | inl e ↦ rw e (refl, (λ _. refl, λ _. refl))
  | inr (inl e) ↦ rw e (refl, (λ _. refl, λ _. refl))
  | inr (inr (inl e)) ↦ rw e (refl, (λ _. refl, λ _. refl))
  | inr (inr (inr (inl e))) ↦ rw e (refl, (λ _. refl, λ _. refl))
  | inr (inr (inr (inr (a, d, p, v)))) ↦ elim (Bool-cases (s == "readonly")) [
    | inl r ↦ rw (==→eq s "readonly" r) (refl, (λ _. refl, λ _. refl))
    | inr r ↦
        rw (a, d, p, v, r, parse_role)
          (
            refl,
            (
              λ h. cc,
              λ h. ground (
                arith,
                ==_symm "admin" s,
                ==_symm "editor" s,
                ==_symm "responder" s,
                ==_symm "viewer" s,
                ==_symm "readonly" s,
              ),
            ),
          )
  ]
]
