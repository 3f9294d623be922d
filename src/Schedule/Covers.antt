-- ===== src/Schedule/Covers.antt =====
-- Which override wins, whom a rotation puts on call, and when its window is open.
use nxs_anomaly.Base.{
  ℕ, ◌≤◌, ◌<◌, ◌≡◌, ◌≢◌, refl, sym, ap, ◌∙◌, ◌⊎◌, inl, inr, List, [], ◌∷◌, Option, none, some, ltb,
  arith, Bool-cases, ltb→lt,
}
use mathlib.Core.Path.{subst}
use nxs_anomaly.Base.Time.{Instant}
use nxs_anomaly.Base.Decoded.{Fields}
use nxs_anomaly.Schedule.Calendar.{Calendar}
use nxs_anomaly.Schedule.Resolve.{Cover, cover_of, later_cover, winning_cover}

-- The override is one of the rows, and covers as it says.
abbrev Offered : Calendar → Instant → Cover → List Fields → Type 0
Offered cal at c [] = ⊥
Offered cal at c (o ∷ rest) = (cover_of cal at o ≡ some c) ⊎ Offered cal at c rest

-- No row covers that was created later.
abbrev Latest : Calendar → Instant → Cover → List Fields → Type 0
Latest cal at c [] = Unit {0}
Latest cal at c (o ∷ rest) =
    ((d : Cover) → cover_of cal at o ≡ some d → d.created ≤ c.created) × Latest cal at c rest

abbrev NoCover : Calendar → Instant → List Fields → Type 0
NoCover cal at [] = Unit {0}
NoCover cal at (o ∷ rest) = (cover_of cal at o ≡ none) × NoCover cal at rest

-- What a winner is: the one from before or one of the rows, and none was created later.
abbrev Wins : Calendar → Instant → List Fields → Option Cover → Option Cover → Type 0
Wins cal at l before none = (before ≡ none) × NoCover cal at l
Wins cal at l before (some c) =
    ((before ≡ some c) ⊎ Offered cal at c l)
    × ((d : Cover) → before ≡ some d → d.created ≤ c.created)
    × Latest cal at c l

created_of : Option Cover → ℕ
created_of none = 0
created_of (some c) = c.created

none≢some : {c : Cover} → none ≢ some c
none≢some e = cc

cover_inj : {b c : Cover} → some b ≡ some c → b ≡ c
cover_inj e = cc

later_cover_cases :
    (b c : Cover)
    → ((later_cover (some b) (some c) ≡ some b) × (c.created < b.created))
      ⊎ ((later_cover (some b) (some c) ≡ some c) × (b.created ≤ c.created))
unfolding later_cover
later_cover_cases b c = elim (Bool-cases (ltb c.created b.created)) [
  | inl older ↦ inl (rw older refl, ltb→lt c.created b.created older)
  | inr newer ↦ inr (rw newer refl, ground arith)
]

add_row :
    (cal : Calendar) (at : Instant) (o : Fields) (rest : List Fields) (b c : Option Cover)
    → cover_of cal at o ≡ c
    → (w : Option Cover) → Wins cal at rest (later_cover b c) w
    → Wins cal at (o ∷ rest) b w
unfolding later_cover created_of
add_row cal at o rest b none here none h = (h.0, (here, h.1))
add_row cal at o rest b none here (some w) h = (
  elim h.0 [ inl e ↦ inl e | inr more ↦ inr (inr more) ],
  h.1,
  (λ d e. absurd (none≢some (sym here ∙ e)), h.2),
)
add_row cal at o rest none (some c) here none h = absurd (none≢some (sym h.0))
add_row cal at o rest none (some c) here (some w) h = (
  elim h.0 [ inl e ↦ inr (inl (here ∙ e)) | inr more ↦ inr (inr more) ],
  λ d e. absurd (none≢some e),
  (λ d e. h.1 d (sym here ∙ e), h.2),
)
add_row cal at o rest (some b) (some c) here w h = elim (later_cover_cases b c) [
  | inl (kept, older) ↦ older_row w older (subst (λ v. Wins cal at rest v w) kept h)
  | inr (taken, newer) ↦ newer_row w newer (subst (λ v. Wins cal at rest v w) taken h)
]
  where
    older_row :
        (w : Option Cover)
        → c.created < b.created
        → Wins cal at rest (some b) w
        → Wins cal at (o ∷ rest) (some b) w
    older_row none older h = absurd (none≢some (sym h.0))
    older_row (some w) older h = (
      elim h.0 [ inl e ↦ inl e | inr more ↦ inr (inr more) ],
      h.1,
      (λ d e. omega (arith, older, h.1 b refl, ap created_of (sym here ∙ e)), h.2),
    )

    newer_row :
        (w : Option Cover)
        → b.created ≤ c.created
        → Wins cal at rest (some c) w
        → Wins cal at (o ∷ rest) (some b) w
    newer_row none newer h = absurd (none≢some (sym h.0))
    newer_row (some w) newer h = (
      elim h.0 [ inl e ↦ inr (inl (here ∙ e)) | inr more ↦ inr (inr more) ],
      λ d e. omega (arith, newer, h.1 c refl, ap created_of e),
      (λ d e. h.1 d (sym here ∙ e), h.2),
    )

winning_cover-Wins :
    (cal : Calendar) (at : Instant) (l : List Fields) (before : Option Cover)
    → Wins cal at l before (winning_cover cal at l before)
unfolding winning_cover created_of
winning_cover-Wins cal at [] none = (refl, tt)
winning_cover-Wins cal at [] (some c) = (inl refl, λ d e. omega (arith, ap created_of e), tt)
winning_cover-Wins cal at (o ∷ rest) before =
    add_row cal at o rest before (cover_of cal at o) refl
      (winning_cover cal at rest (later_cover before (cover_of cal at o)))
      (winning_cover-Wins cal at rest (later_cover before (cover_of cal at o)))

-- A winner is one of the rows that cover, and none that covers was created later; without a winner no row
-- covers.
abbrev pub IsWinner : Calendar → Instant → List Fields → Option Cover → Type 0
IsWinner cal at l none = NoCover cal at l
IsWinner cal at l (some c) = Offered cal at c l × Latest cal at c l

Wins-IsWinner :
    (cal : Calendar) (at : Instant) (l : List Fields) (w : Option Cover)
    → Wins cal at l none w
    → IsWinner cal at l w
Wins-IsWinner cal at l none h = h.1
Wins-IsWinner cal at l (some c) h =
    (elim h.0 [ inl e ↦ absurd (none≢some e) | inr offered ↦ offered ], h.2)

-- Of the overrides of a schedule that cover an instant the one that was created last wins: the winner is
-- one of them, and none of them was created after it; and there is no winner only if none covers.
pub winning_cover_lem :
    (cal : Calendar) (at : Instant) (l : List Fields)
    → IsWinner cal at l (winning_cover cal at l none)
winning_cover_lem cal at l =
    Wins-IsWinner cal at l (winning_cover cal at l none) (winning_cover-Wins cal at l none)
