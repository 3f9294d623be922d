-- ===== src/Group/Notified.antt =====
-- Whom a group has paged: a list without repeats.
use nxs_anomaly.Base.{
  String, true, false, not, ◌≡◌, refl, inl, inr, List, [], ◌∷◌, ◌++◌, arith, ◌==◌, ◌||◌, ◌&&◌,
  contains, Bool-cases, ==_symm, ==→eq,
}
use nxs_anomaly.Base.Json.{str_slice}
use nxs_anomaly.Group.State.{Group, add_notified_user, notified_user_ids}

abbrev pub Distinct : List String → Type 0
Distinct [] = Unit {0}
Distinct (x ∷ xs) = (contains x xs ≡ false) × Distinct xs

contains-append_last :
    (a x : String) (xs : List String) → contains a (xs ++ x ∷ []) ≡ (contains a xs || (x == a))
contains-append_last a x [] = ground arith
contains-append_last a x (y ∷ xs) = ground (arith, contains-append_last a x xs)

Distinct-append_last :
    (x : String) (xs : List String) → Distinct xs → contains x xs ≡ false → Distinct (xs ++ x ∷ [])
Distinct-append_last x [] d c = (refl, tt)
Distinct-append_last x (y ∷ xs) d c = (
  ground (arith, contains-append_last y x xs, ==_symm x y),
  Distinct-append_last x xs d.1 (ground arith),
)

old_member :
    (user other : String) (xs : List String)
    → contains user xs ≡ true
    → contains other xs ≡ (contains other xs || (user == other))
old_member user other xs old = elim (Bool-cases (user == other)) [
  | inl e ↦ rw (← ==→eq user other e, old)
  | inr e ↦ rw e (ground arith)
]

-- Recording a page keeps the list of those paged free of repeats, adds that user and nobody else,
-- records no empty id, and keeps the status of the group.
pub add_notified_user_lem :
    (user : String) (g : Group)
    → Distinct (notified_user_ids g)
    → Distinct (notified_user_ids (add_notified_user user g))
      × ((other : String)
          → contains other (notified_user_ids (add_notified_user user g))
            ≡ (contains other (notified_user_ids g) || (not (user == "") && (user == other))))
      × ((add_notified_user user g).status ≡ g.status)
unfolding add_notified_user str_slice
add_notified_user_lem user g d = elim (Bool-cases (user == "")) [
  | inl blank ↦ rw (blank, add_notified_user) (d, λ other. ground arith, refl)
  | inr named ↦ elim (Bool-cases (contains user (notified_user_ids g))) [
    | inl old ↦
        rw (named, old, add_notified_user)
          (d, λ other. old_member user other (notified_user_ids g) old, refl)
    | inr new ↦
        rw (named, new, add_notified_user)
          (
            Distinct-append_last user (notified_user_ids g) d new,
            λ other. contains-append_last other user (notified_user_ids g),
            refl,
          )
  ]
]
