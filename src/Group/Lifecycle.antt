-- ===== src/Group/Lifecycle.antt =====
-- The status machine of an alert group: the diagram of its transitions, and what holds of a group
-- after any history of them.
use nxs_anomaly.Base.{
  if_cases, ne_of_test, ℕ, String, Bool, true, false, ◌≡◌, refl, ◌≢◌, ◌==◌, if◌then◌else◌, ==→eq,
  false≢true,
}
use nxs_anomaly.Authz.{Actor}
use nxs_anomaly.Group.State.{
  Error, acknowledge_resolved, unresolve_not_resolved, unacknowledge_not_acked, silence_resolved,
  Result, ok, err, Group, Fresh, status_open, status_acknowledged, status_resolved, status_silenced,
  is_resolved, is_acknowledged,
}
use nxs_anomaly.Group.Transitions.{
  acknowledge, resolve, unresolve, unacknowledge, end_silence, reopen_on_new_alert, silence,
}

-- A call on a group: what an operator, a new alert or the worker does to it.
pub data Call : Type 0 where
  acknowledges : String → String → Actor → Call
  resolves : String → String → Actor → Call
  unresolves : String → Actor → Call
  unacknowledges : String → Actor → Call
  ends_silence : String → Call
  receives_alert : Call
  silences : String → String → String → ℕ → Actor → Call

abbrev pub after : Group → Result Group → Group
after g (ok h) = h
after g (err e) = g

-- A refused call leaves the group as it was.
unfoldable pub perform : Fresh → Call → Group → Group
unfolding acknowledge resolve unresolve unacknowledge end_silence reopen_on_new_alert silence
perform f (acknowledges ts message actor) g = after g (acknowledge f ts message actor g)
perform f (resolves ts reason actor) g = resolve f ts reason actor g
perform f (unresolves ts actor) g = after g (unresolve f ts actor g)
perform f (unacknowledges ts actor) g = after g (unacknowledge f ts actor g)
perform f (ends_silence ts) g = if g.status == status_silenced then end_silence f ts g else g
perform f receives_alert g = (reopen_on_new_alert f g).0
perform f (silences ts until message minutes actor) g =
    after g (silence f ts until message minutes actor g)

infix 40 ◌⟶◌
-- The diagram of the statuses.
pub data ◌⟶◌ (s : String) : String → Type 0 where
  stay : s ⟶ s
  to_acknowledged : s ≢ status_resolved → s ⟶ status_acknowledged
  to_resolved : s ⟶ status_resolved
  to_silenced : s ≢ status_resolved → s ⟶ status_silenced
  reopen_resolved : s ≡ status_resolved → s ⟶ status_open
  reopen_acknowledged : s ≡ status_acknowledged → s ⟶ status_open
  reopen_silenced : s ≡ status_silenced → s ⟶ status_open

-- The two shapes of a guarded transition.
pub refuse_or {ℓ} :
    (P : Group → Type ℓ) {g h : Group} (e : Error) (b : Bool)
    → (b ≡ true → P g)
    → (b ≡ false → P h)
    → P (after g (if b then err e else ok h))
refuse_or P e true kept done = kept refl
refuse_or P e false kept done = done refl

pub allow_or {ℓ} :
    (P : Group → Type ℓ) {g h : Group} (e : Error) (b : Bool)
    → (b ≡ true → P h)
    → (b ≡ false → P g)
    → P (after g (if b then ok h else err e))
allow_or P e true done kept = done refl
allow_or P e false done kept = kept refl

-- Every call, in every state, follows an edge of the diagram or leaves the status as it was.
pub perform-⟶ : (f : Fresh) (c : Call) (g : Group) → g.status ⟶ (perform f c g).status
unfolding perform
perform-⟶ f (acknowledges ts message actor) g =
    refuse_or (λ h. g.status ⟶ h.status) acknowledge_resolved (is_resolved g) (λ _. stay)
      (λ miss. to_acknowledged (ne_of_test miss))
perform-⟶ f (resolves ts reason actor) g = to_resolved
perform-⟶ f (unresolves ts actor) g =
    allow_or (λ h. g.status ⟶ h.status) unresolve_not_resolved (is_resolved g)
      (λ hit. reopen_resolved (==→eq g.status _ hit)) (λ _. stay)
perform-⟶ f (unacknowledges ts actor) g =
    allow_or (λ h. g.status ⟶ h.status) unacknowledge_not_acked (is_acknowledged g)
      (λ hit. reopen_acknowledged (==→eq g.status _ hit)) (λ _. stay)
perform-⟶ f (ends_silence ts) g =
    if_cases (λ (h : Group). g.status ⟶ h.status) (g.status == status_silenced)
      (λ hit. reopen_silenced (==→eq g.status _ hit)) (λ _. stay)
perform-⟶ f receives_alert g =
    if_cases (λ (h : Group × Bool). g.status ⟶ h.0.status) (is_acknowledged g)
      (λ hit. reopen_acknowledged (==→eq g.status _ hit)) (λ _. stay)
perform-⟶ f (silences ts until message minutes actor) g =
    refuse_or (λ h. g.status ⟶ h.status) silence_resolved (is_resolved g) (λ _. stay)
      (λ miss. to_silenced (ne_of_test miss))

-- A group leaves `resolved` only by `unresolve`: every other call keeps it resolved.
pub resolved_until_unresolve :
    (f : Fresh) (c : Call) (g : Group)
    → ((ts : String) (actor : Actor) → c ≢ unresolves ts actor)
    → g.status ≡ status_resolved
    → (perform f c g).status ≡ status_resolved
unfolding perform
resolved_until_unresolve f (acknowledges ts message actor) g other r =
    refuse_or (λ h. h.status ≡ status_resolved) acknowledge_resolved (is_resolved g) (λ _. r)
      (λ miss. absurd (ne_of_test miss r))
resolved_until_unresolve f (resolves ts reason actor) g other r = refl
resolved_until_unresolve f (unresolves ts actor) g other r = absurd (other ts actor refl)
resolved_until_unresolve f (unacknowledges ts actor) g other r =
    allow_or (λ h. h.status ≡ status_resolved) unacknowledge_not_acked (is_acknowledged g)
      (λ hit. absurd (false≢true (rw r at hit))) (λ _. r)
resolved_until_unresolve f (ends_silence ts) g other r =
    if_cases (λ (h : Group). h.status ≡ status_resolved) (g.status == status_silenced)
      (λ hit. absurd (false≢true (rw r at hit))) (λ _. r)
resolved_until_unresolve f receives_alert g other r =
    if_cases (λ (h : Group × Bool). h.0.status ≡ status_resolved) (is_acknowledged g)
      (λ hit. absurd (false≢true (rw r at hit))) (λ _. r)
resolved_until_unresolve f (silences ts until message minutes actor) g other r =
    refuse_or (λ h. h.status ≡ status_resolved) silence_resolved (is_resolved g) (λ _. r)
      (λ miss. absurd (ne_of_test miss r))
