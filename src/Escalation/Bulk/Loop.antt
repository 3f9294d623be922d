-- ===== src/Escalation/Bulk/Loop.antt =====
-- The loop of the bulk operations: what it reports of the ids, and what becomes of each row.
use mathlib.Core.Option.{none-ne-some, some_inj}
use nxs_anomaly.Base.{
  ℕ, ◌+◌, String, true, false, ◌≡◌, ◌⊎◌, refl, sym, ◌∙◌, ap, inl, inr, List, [], ◌∷◌, Option, none,
  some, arith, ◌==◌, contains, Bool-cases, Option-cases, false≢true, ==→eq,
}
use nxs_anomaly.Group.State.{Group}
use nxs_anomaly.Scope.Boundary.{count}
use nxs_anomaly.Escalation.{put_group}
use nxs_anomaly.Escalation.Bulk.{
  Report, Body, Groups, after_body, after_visit, report_body, report_visit, bulk_loop, add_changed,
  add_not_found, add_skipped,
}

-- Each id of the loop stands in the three lists as often as in the request.
abbrev pub IsReport : List String → Report → Type 0
IsReport ids r =
    (k : String) → count k ids ≡ count k r.changed + count k r.not_found + count k r.skipped

report_visit-IsReport :
    (body : Body) (i : ℕ) (id : String) (ids : List String) (r : Report) (o : Option Group)
    → IsReport ids r
    → IsReport (id ∷ ids) (report_visit body i id o r)
unfolding report_visit report_body
report_visit-IsReport body i id ids r none h k = ground (arith, h k)
report_visit-IsReport body i id ids r (some g) h k = elim (Option-cases (body i g)) [
  | inl e ↦ rw e (ground (arith, h k))
  | inr (g', e) ↦ rw e (ground (arith, h k))
]

pub bulk_loop-IsReport :
    (body : Body) (i : ℕ) (ids : List String) (groups : Groups)
    → IsReport ids (bulk_loop body i ids groups).0
unfolding bulk_loop
bulk_loop-IsReport body i [] groups k = refl
bulk_loop-IsReport body i (id ∷ ids) groups k =
    report_visit-IsReport body i id ids _ (groups id)
      (bulk_loop-IsReport body (i + 1) ids (after_visit body i id groups (groups id))) k

module _ (body : Body) where
  -- One id: what the body did with it, against its row and the report.
  data Visit (i : ℕ) (id : String) (groups : Groups) : Type 0 where
    gone : groups id ≡ none → Visit i id groups
    left : (g : Group) → groups id ≡ some g → body i g ≡ none → Visit i id groups
    done : (g h : Group) → groups id ≡ some g → body i g ≡ some h → Visit i id groups

  visit : (i : ℕ) (id : String) (groups : Groups) → Visit i id groups
  visit i id groups = elim (Option-cases (groups id)) [
    | inl e ↦ gone e
    | inr (g, e) ↦ elim (Option-cases (body i g)) [ inl f ↦ left g e f | inr (h, f) ↦ done g h e f ]
  ]

module _ (body : Body) (Before After Refused : Group → Type 0)
    (step : (i : ℕ) (g h : Group) → body i g ≡ some h → Before g × After h)
    (refuse : (i : ℕ) (g : Group) → body i g ≡ none → Refused g) where
  -- What became of one id's row: nothing, with a reason where the id was in the batch and has a
  -- group, or a change of a group that allowed it.
  abbrev pub Fate : String → List String → Groups → Report × Groups → Type 0
  Fate k ids groups (r, groups') =
      ((contains k r.changed ≡ false)
        × (groups' k ≡ groups k)
        × (contains k ids ≡ true → (g : Group) → groups k ≡ some g → Refused g))
      ⊎ ((contains k r.changed ≡ true)
          × ((g : Group) × (groups k ≡ some g) × Before g)
          × ((h : Group) × (groups' k ≡ some h) × After h))

  Fate-done :
      (id : String) (ids : List String) (g h : Group) (groups : Groups) (k : String)
      (rest : Report × Groups)
      → groups id ≡ some g
      → Before g × After h
      → Fate k ids (put_group id h groups) rest
      → Fate k (id ∷ ids) groups (add_changed id rest.0, rest.1)
  unfolding add_changed
  Fate-done id ids g h groups k rest e (b, a) was = elim (Bool-cases (id == k)) [
    | inl hit ↦ inr (
      rw hit,
      (g, ap groups (sym (==→eq id k hit)) ∙ e, b),
      elim was [ inl (c, kept, why) ↦ (h, kept ∙ rw hit, a) | inr (c, x, y) ↦ y ],
    )
    | inr miss ↦ elim was [
      | inl (c, kept, why) ↦
          inl (rw miss c, kept ∙ rw miss, λ inside x at. why (rw miss at inside) x (rw miss at))
      | inr (c, (x, at, bx), y) ↦ inr (rw miss c, (x, rw miss at at, bx), y)
    ]
  ]

  Fate-skip :
      (id : String) (ids : List String) (groups : Groups) (k : String) (rest : Report × Groups)
      → ((g : Group) → groups id ≡ some g → Refused g)
      → Fate k ids groups rest
      → Fate k (id ∷ ids) groups rest
  Fate-skip id ids groups k rest here (inr x) = inr x
  Fate-skip id ids groups k rest here (inl (c, kept, why)) = inl (
    c,
    kept,
    λ inside g at. elim (Bool-cases (id == k)) [
      | inl hit ↦ here g (ap groups (==→eq id k hit) ∙ at)
      | inr miss ↦ why (rw miss at inside) g at
    ],
  )

  pub fate :
      (i : ℕ) (ids : List String) (groups : Groups) (k : String)
      → Fate k ids groups (bulk_loop body i ids groups)
  unfolding bulk_loop after_visit after_body report_visit report_body add_not_found add_skipped
  fate i [] groups k = inl (refl, refl, λ h. absurd (false≢true h))
  fate i (id ∷ ids) groups k = elim (visit body i id groups) [
    | gone e ↦
        Fate-skip id ids groups k (bulk_loop body i (id ∷ ids) groups)
          (λ g at. absurd (none-ne-some g (sym e ∙ at))) (rw e (fate (i + 1) ids groups k))
    | left g e f ↦
        Fate-skip id ids groups k (bulk_loop body i (id ∷ ids) groups)
          (λ x at. refuse i x (ap (body i) (sym (some_inj.0 (sym e ∙ at))) ∙ f))
          (rw (e, f) (fate (i + 1) ids groups k))
    | done g h e f ↦
        rw (e, f)
          (Fate-done id ids g h groups k (bulk_loop body (i + 1) ids (put_group id h groups)) e
            (step i g h f) (fate (i + 1) ids (put_group id h groups) k))
  ]
