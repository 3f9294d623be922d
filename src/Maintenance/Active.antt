-- ===== src/Maintenance/Active.antt =====
-- Which window `activeMaintenance` answers.
use nxs_anomaly.Base.{
  ◌≡◌, refl, sym, ◌∙◌, ◌≢◌, ◌⊎◌, inl, inr, ◌≤◌, String, Bool, true, false, ◌&&◌, List, [], ◌∷◌,
  Option, none, some, ltb, arith, Bool-cases, contains,
}
use mathlib.Core.Path.{subst}
use nxs_anomaly.Base.Time.{Instant, TimeText}
use nxs_anomaly.Base.Decoded.{Fields, text_val}
use nxs_anomaly.Maintenance.{
  within, covers, ends_of, later_window, find_active, active_maintenance, maintenance_integrations,
}

module _ (time : TimeText) (id : String) (now : Instant) where
  -- The window is one of the list, and covers.
  abbrev pub Offers : Fields → List Fields → Type 0
  Offers f [] = ⊥
  Offers f (w ∷ rest) = ((w ≡ f) × (covers time id now w ≡ true)) ⊎ Offers f rest

  -- No window that covers ends later.
  abbrev pub Longest : Instant → List Fields → Type 0
  Longest e [] = Unit {0}
  Longest e (w ∷ rest) =
      (covers time id now w ≡ true → (d : Instant) → ends_of time w ≡ some d → d ≤ e)
      × Longest e rest

  abbrev pub NoneCovers : List Fields → Type 0
  NoneCovers [] = Unit {0}
  NoneCovers (w ∷ rest) = (covers time id now w ≡ false) × NoneCovers rest

  record Wins (l : List Fields) (before : Option Fields) (f : Fields) : Type 0 where
    among : (before ≡ some f) ⊎ Offers f l
    end : Instant
    ends : ends_of time f ≡ some end
    not_before : (b : Fields) (e : Instant) → before ≡ some b → ends_of time b ≡ some e → e ≤ end
    longest : Longest end l

  abbrev IsAnswer : List Fields → Option Fields → Option Fields → Type 0
  IsAnswer l before none = (before ≡ none) × NoneCovers l
  IsAnswer l before (some f) = Wins l before f

  abbrev HasEnd : Option Fields → Type 0
  HasEnd none = Unit {0}
  HasEnd (some b) = (e : Instant) × (ends_of time b ≡ some e)

  some_inj : {A : Type 0} {a b : A} → some a ≡ some b → a ≡ b
  some_inj e = cc

  within_end : (s e : Option Instant) → within now s e ≡ true → (d : Instant) × (e ≡ some d)
  unfolding within
  within_end (some s) (some e) h = (e, refl)
  within_end (some s) none h = cc
  within_end none e h = cc

  both_true : (a b : Bool) → (a && b) ≡ true → a ≡ true
  both_true true b h = refl
  both_true false b h = h

  covers-HasEnd : (w : Fields) → covers time id now w ≡ true → HasEnd (some w)
  unfolding covers
  covers-HasEnd w h =
      within_end (time.parse (text_val w "starts_at")) (ends_of time w)
        (both_true _ (contains id (maintenance_integrations w)) h)

  -- The window that is kept of two, and its end.
  record Kept (before : Option Fields) (w n : Fields) (d : Instant) : Type 0 where
    is_kept : later_window time before w ≡ some n
    end : Instant
    ends : ends_of time n ≡ some end
    not_less : d ≤ end
    not_before : (b : Fields) (e : Instant) → before ≡ some b → ends_of time b ≡ some e → e ≤ end
    one_of : (n ≡ w) ⊎ (before ≡ some n)

  same_end :
      (b c : Fields) (e d : Instant)
      → some b ≡ some c
      → ends_of time c ≡ some d
      → ends_of time b ≡ some e
      → d ≡ e
  same_end b c e d same at_d at_e = cc

  keeps :
      (before : Option Fields) (w : Fields) (d : Instant)
      → HasEnd before
      → ends_of time w ≡ some d
      → (n : Fields) × Kept before w n d
  unfolding later_window
  keeps none w d h at_d = (
    w,
    record {
      is_kept = refl;
      end = d;
      ends = at_d;
      not_less = omega arith;
      not_before = λ b e same at_e. cc;
      one_of = inl refl;
    },
  )
  keeps (some b) w d (e, at_e) at_d = elim (Bool-cases (ltb e d)) [
    | inl later ↦ (
      w,
      record {
        is_kept = rw (at_e, at_d, later) refl;
        end = d;
        ends = at_d;
        not_less = omega arith;
        not_before = λ c k same at_k. ground (arith, same_end b c e k same at_k at_e);
        one_of = inl refl;
      },
    )
    | inr sooner ↦ (
      b,
      record {
        is_kept = rw (at_e, at_d, sooner) refl;
        end = e;
        ends = at_e;
        not_less = ground arith;
        not_before = λ c k same at_k. ground (arith, same_end b c e k same at_k at_e);
        one_of = inr refl;
      },
    )
  ]

  skips :
      (l : List Fields) (before : Option Fields) (w : Fields) (r : Option Fields)
      → covers time id now w ≡ false
      → IsAnswer l before r
      → IsAnswer (w ∷ l) before r
  skips l before w none shut h = (h.0, (shut, h.1))
  skips l before w (some f) shut h = record {
    among = elim h.among [ inl was ↦ inl was | inr o ↦ inr (inr o) ];
    end = h.end;
    ends = h.ends;
    not_before = h.not_before;
    longest = (λ open_now. cc, h.longest);
  }

  takes :
      (l : List Fields) (before : Option Fields) (w n : Fields) (d : Instant) (r : Option Fields)
      → covers time id now w ≡ true
      → ends_of time w ≡ some d
      → Kept before w n d
      → IsAnswer l (some n) r
      → IsAnswer (w ∷ l) before r
  takes l before w n d none open_now at_d kept h = absurd (some≢none h.0)
    where
      some≢none : some n ≢ none
      some≢none e = cc
  takes l before w n d (some f) open_now at_d kept h = record {
    among = elim h.among [
      | inl was ↦ elim kept.one_of [
        | inl new ↦ inr (inl (sym new ∙ some_inj was, open_now))
        | inr old ↦ inl (old ∙ was)
      ]
      | inr o ↦ inr (inr o)
    ];
    end = h.end;
    ends = h.ends;
    not_before = λ b e same at_e.
        omega (arith, kept.not_before b e same at_e, h.not_before n kept.end refl kept.ends);
    longest = (
      λ _ k at_k. omega (
        arith,
        some_inj (sym at_k ∙ at_d),
        kept.not_less,
        h.not_before n kept.end refl kept.ends,
      ),
      h.longest,
    );
  }

  find_active-IsAnswer :
      (l : List Fields) (before : Option Fields)
      → HasEnd before
      → IsAnswer l before (find_active time id now l before)
  unfolding find_active
  find_active-IsAnswer [] none h = (refl, tt)
  find_active-IsAnswer [] (some b) (e, at_e) = record {
    among = inl refl;
    end = e;
    ends = at_e;
    not_before = λ c k same at_k. omega (arith, same_end b c e k same at_k at_e);
    longest = tt;
  }
  find_active-IsAnswer (w ∷ rest) before h = elim (Bool-cases (covers time id now w)) [
    | inl open_now ↦
        (let (d, at_d) = covers-HasEnd w open_now in
          let (n, kept) = keeps before w d h at_d in
          rw (open_now, kept.is_kept)
            (takes rest before w n d (find_active time id now rest (some n)) open_now at_d kept
              (find_active-IsAnswer rest (some n) (kept.end, kept.ends))))
    | inr shut ↦ rw shut (
        skips rest before w (find_active time id now rest before) shut
          (find_active-IsAnswer rest before h))
  ]

  -- The window that an integration is under, if any, is one that is open and names it, and none that is
  -- ends later, in whatever order the windows come; there is none exactly when no window covers.
  pub active_maintenance_lem :
      (windows : List Fields) (r : Option Fields)
      → active_maintenance time windows id now ≡ r
      → ((f : Fields)
          → r ≡ some f
          → Offers f windows × ((e : Instant) × (ends_of time f ≡ some e) × Longest e windows))
        × (r ≡ none → NoneCovers windows)
  unfolding active_maintenance
  active_maintenance_lem windows r found =
      of_answer r (subst (IsAnswer windows none) found (find_active-IsAnswer windows none tt))
    where
      offered : (f : Fields) → (none ≡ some f) ⊎ Offers f windows → Offers f windows
      offered f (inl e) = cc
      offered f (inr o) = o

      of_answer :
          (r : Option Fields)
          → IsAnswer windows none r
          → ((f : Fields)
              → r ≡ some f
              → Offers f windows × ((e : Instant) × (ends_of time f ≡ some e) × Longest e windows))
            × (r ≡ none → NoneCovers windows)
      of_answer none h = (λ f e. cc, λ _. h.1)
      of_answer (some f) h = (
        λ g same.
            subst
              (λ k.
                Offers k windows × ((e : Instant) × (ends_of time k ≡ some e) × Longest e windows))
              (some_inj same) (offered f h.among, (h.end, h.ends, h.longest)),
        λ e. cc,
      )
