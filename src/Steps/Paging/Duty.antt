-- ===== src/Steps/Paging/Duty.antt =====
-- Whom a NOTIFY_DUTY_USERS step elects.
use mathlib.Core.Path.{subst, ap₂}
use Prim.Native.Nat.{max}
use nxs_anomaly.Base.{
  ℕ, suc, ap, eqb, ◌<◌, ◌≤◌, if◌then◌else◌, Bool-cases, ==→eq, ◌==◌, String, Bool, true, false, ◌≡◌,
  ◌≢◌, refl, sym, ◌∙◌, ◌⊎◌, inl, inr, List, [], ◌∷◌, if_cases, false≢true, arith,
}
use nxs_anomaly.Base.Json.{Row, str_val, bool_val}
use nxs_anomaly.Steps.{Directory}
use nxs_anomaly.Steps.Paging.{
  no_users, tier, priority_of, all_ids, first_tier, elected, on_duty, candidate_ids,
  elect_duty_users,
}

cons≢nil : {x : String} {xs : List String} → (x ∷ xs) ≢ []
cons≢nil e = ground (arith, e)

no_users_nil : (xs : List String) → no_users xs ≡ true → xs ≡ []
no_users_nil [] h = refl
no_users_nil (x ∷ xs) h = absurd (false≢true h)

some_users : (xs : List String) → no_users xs ≡ false → xs ≢ []
some_users [] h = absurd (false≢true (sym h))
some_users (x ∷ xs) h = cons≢nil

first_tier_some : (ps : List String) (u : Row) (users : List Row) → first_tier ps (u ∷ users) ≢ []
unfolding first_tier all_ids
first_tier_some [] u users = cons≢nil
first_tier_some (p ∷ ps) u users =
    if_cases (λ (xs : List String). xs ≢ []) (no_users (tier p (u ∷ users)))
      (λ _. first_tier_some ps u users) (λ found. some_users _ found)

elected_some :
    (candidates : List String) (fallback : Bool) (users : List Row)
    → candidates ≢ []
    → (fallback ≡ true) ⊎ (users ≢ [])
    → elected candidates fallback users ≢ []
unfolding elected
elected_some candidates fallback [] c (inl f) = rw f c
elected_some candidates fallback [] c (inr u) = absurd (u refl)
elected_some candidates fallback (u ∷ users) c why =
    first_tier_some ("high" ∷ "medium" ∷ "low" ∷ []) u users

-- A step that falls back to everybody, or that has somebody on duty, elects somebody if it has any
-- candidate.
pub elect_someone :
    (d : Directory) (step : Row)
    → candidate_ids d step ≢ []
    → (bool_val step "fallback_to_all" true ≡ true) ⊎ (on_duty d (candidate_ids d step) ≢ [])
    → elect_duty_users d step ≢ []
unfolding elect_duty_users
elect_someone d step = elected_some _ _ _

-- The rank of a priority as it is written: a text that is absent is empty, and ranks as medium.
abbrev pub rank : String → ℕ
rank p =
    if p == "high"
    then 3
    else if p == "medium"
    then 2
    else if p == ""
    then 2
    else if p == "low"
    then 1
    else 0

abbrev pub rank_of : Row → ℕ
rank_of user = rank (str_val user "priority")

-- The highest rank of the users.
abbrev pub highest : List Row → ℕ
highest [] = 0
highest (user ∷ users) = max (rank_of user) (highest users)

-- The ids of those of a rank.
abbrev pub of_rank : ℕ → List Row → List String
of_rank n [] = []
of_rank n (user ∷ users) =
    if eqb (rank_of user) n then str_val user "id" ∷ of_rank n users else of_rank n users

-- How a priority compares, an unset one being medium.
ranked :
    (p : String)
    → (((if p == "" then "medium" else p) == "high") ≡ eqb (rank p) 3)
      × (((if p == "" then "medium" else p) == "medium") ≡ eqb (rank p) 2)
      × (((if p == "" then "medium" else p) == "low") ≡ eqb (rank p) 1)
ranked p = elim (Bool-cases (p == "high")) [
  | inl high ↦ subst Ranked (sym (==→eq p "high" high)) (refl, refl, refl)
  | inr not_high ↦ elim (Bool-cases (p == "medium")) [
    | inl medium ↦ subst Ranked (sym (==→eq p "medium" medium)) (refl, refl, refl)
    | inr not_medium ↦ elim (Bool-cases (p == "")) [
      | inl unset ↦ subst Ranked (sym (==→eq p "" unset)) (refl, refl, refl)
      | inr is_set ↦ elim (Bool-cases (p == "low")) [
        | inl low ↦ subst Ranked (sym (==→eq p "low" low)) (refl, refl, refl)
        | inr not_low ↦ rw (not_high, not_medium, is_set, not_low) (not_high, not_medium, refl)
      ]
    ]
  ]
]
  where
    Ranked : String → Type 0
    Ranked q =
        (((if q == "" then "medium" else q) == "high") ≡ eqb (rank q) 3)
        × (((if q == "" then "medium" else q) == "medium") ≡ eqb (rank q) 2)
        × (((if q == "" then "medium" else q) == "low") ≡ eqb (rank q) 1)

tier-of_rank :
    (p : String) (n : ℕ)
    → ((user : Row) → (priority_of user == p) ≡ eqb (rank_of user) n)
    → (users : List Row) → tier p users ≡ of_rank n users
unfolding tier
tier-of_rank p n same [] = refl
tier-of_rank p n same (user ∷ users) =
    ap₂ (λ b ids. if b then str_val user "id" ∷ ids else ids) (same user)
      (tier-of_rank p n same users)

highest_lt :
    (n : ℕ) (users : List Row)
    → 0 < n
    → of_rank n users ≡ []
    → highest users ≤ n
    → highest users < n
highest_lt n [] some none_of h = some
highest_lt n (user ∷ users) some none_of h = elim (Bool-cases (eqb (rank_of user) n)) [
  | inl there ↦ absurd (cons≢nil (rw there at none_of))
  | inr other ↦ below other (highest_lt n users some (rw other at none_of) (omega (arith, h)))
]
  where
    below :
        eqb (rank_of user) n ≡ false → highest users < n → max (rank_of user) (highest users) < n
    below other less = ground (arith, h)

highest_le : (n : ℕ) (users : List Row) → of_rank n users ≢ [] → n ≤ highest users
highest_le n [] some_of = absurd (some_of refl)
highest_le n (user ∷ users) some_of = elim (Bool-cases (eqb (rank_of user) n)) [
  | inl there ↦ reached there
  | inr other ↦ omega (arith, highest_le n users (rw other at some_of))
]
  where
    reached : eqb (rank_of user) n ≡ true → n ≤ max (rank_of user) (highest users)
    reached there = ground arith

rank_bound : (p : String) → rank p ≤ 3
rank_bound p = ground arith

highest_bound : (users : List Row) → highest users ≤ 3
highest_bound [] = omega arith
highest_bound (user ∷ users) =
    omega (arith, rank_bound (str_val user "priority"), highest_bound users)

all_ids-of_rank : (users : List Row) → highest users < 1 → all_ids users ≡ of_rank 0 users
unfolding all_ids
all_ids-of_rank [] h = refl
all_ids-of_rank (user ∷ users) h =
    rw (lowest h) (ap (λ ids. str_val user "id" ∷ ids) (all_ids-of_rank users (omega (arith, h))))
  where
    lowest : max (rank_of user) (highest users) < 1 → eqb (rank_of user) 0 ≡ true
    lowest h = ground arith

first_tier_step :
    (p : String) (ps : List String) (n : ℕ) (users : List Row)
    → 0 < n
    → tier p users ≡ of_rank n users
    → highest users < suc n
    → (highest users < n → first_tier ps users ≡ of_rank (highest users) users)
    → first_tier (p ∷ ps) users ≡ of_rank (highest users) users
unfolding first_tier
first_tier_step p ps n users some same h lower =
    if_cases (λ (xs : List String). xs ≡ of_rank (highest users) users) (no_users (tier p users))
      (λ none_of. lower (highest_lt n users some (sym same ∙ no_users_nil _ none_of) (omega arith)))
      (λ found.
        same
        ∙ ap (λ m. of_rank m users)
            (reached (highest_le n users (λ e. some_users _ found (same ∙ e)))))
  where
    reached : n ≤ highest users → n ≡ highest users
    reached up = omega (arith, up, h)

first_tier-of_rank :
    (users : List Row)
    → first_tier ("high" ∷ "medium" ∷ "low" ∷ []) users ≡ of_rank (highest users) users
unfolding first_tier priority_of
first_tier-of_rank users =
    first_tier_step "high" ("medium" ∷ "low" ∷ []) 3 users (omega arith)
      (tier-of_rank "high" 3 (λ u. (ranked (str_val u "priority")).0) users)
      (omega (arith, highest_bound users))
      (λ under_high.
        first_tier_step "medium" ("low" ∷ []) 2 users (omega arith)
          (tier-of_rank "medium" 2 (λ u. (ranked (str_val u "priority")).1) users) under_high
          (λ under_medium.
            first_tier_step "low" [] 1 users (omega arith)
              (tier-of_rank "low" 1 (λ u. (ranked (str_val u "priority")).2) users) under_medium
              (λ under_low.
                all_ids-of_rank users under_low ∙ ap (λ m. of_rank m users) (zero_rank under_low))))
  where
    zero_rank : highest users < 1 → 0 ≡ highest users
    zero_rank h = omega (arith, h)

elected_on_duty :
    (candidates : List String) (fallback : Bool) (users : List Row)
    → users ≢ []
    → elected candidates fallback users ≡ first_tier ("high" ∷ "medium" ∷ "low" ∷ []) users
unfolding elected
elected_on_duty candidates fallback [] u = absurd (u refl)
elected_on_duty candidates fallback (u ∷ users) _ = refl

-- With somebody on duty, the elected are all those on duty of the highest rank that anybody on duty has,
-- in their order: the priority "high" is above "medium", that above "low", and that above any other
-- text, and a priority that is not set ranks with "medium".
pub elect_highest :
    (d : Directory) (step : Row)
    → on_duty d (candidate_ids d step) ≢ []
    → elect_duty_users d step
      ≡ of_rank (highest (on_duty d (candidate_ids d step))) (on_duty d (candidate_ids d step))
unfolding elect_duty_users
elect_highest d step some_on =
    elected_on_duty (candidate_ids d step) (bool_val step "fallback_to_all" true)
      (on_duty d (candidate_ids d step)) some_on
    ∙ first_tier-of_rank (on_duty d (candidate_ids d step))
