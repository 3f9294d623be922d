-- ===== src/Group/Logs.antt =====
-- The embedded log of an alert group keeps the newest 200 entries.
use nxs_anomaly.Base.{
  ℕ, ◌-◌, ◌≤◌, String, ◌≡◌, refl, inl, inr, List, [], ◌∷◌, ◌++◌, arith, ltb, Bool-cases, length,
  drop, list_or_nil, length-append, length-drop, drop-append_last,
}
use nxs_anomaly.Base.Json.{Scalar, LogEntry}
use nxs_anomaly.Authz.{Actor}
use nxs_anomaly.Group.State.{Group, Fresh, max_group_logs, cap_logs, append_log_by, log_entry}

abbrev pub log_of : Group → List LogEntry
log_of g = list_or_nil g.logs

pub length-cap_logs : (es : List LogEntry) → length (cap_logs es) ≤ max_group_logs
unfolding cap_logs
length-cap_logs es = ground (arith, length-drop (length es - max_group_logs) es)

-- Capping after an append keeps the appended entry at the end, and before it a suffix of what was
-- there.
pub cap_logs-append_last :
    (es : List LogEntry) (e : LogEntry) → (n : ℕ) × (cap_logs (es ++ e ∷ []) ≡ drop n es ++ e ∷ [])
unfolding cap_logs
cap_logs-append_last es e = elim (Bool-cases (ltb max_group_logs (length (es ++ e ∷ [])))) [
  | inl more ↦ (
    length (es ++ e ∷ []) - max_group_logs,
    rw (more, cap_logs) (drop-append_last _ es e (omega (arith, length-append es (e ∷ [])))),
  )
  | inr less ↦ (0, rw (less, cap_logs))
]

-- Appending never lets the log grow past its cap, drops entries from the front only, puts the new
-- entry, with its kind, message and time, at the end, and keeps the status.
pub append_log_by_lem :
    (f : Fresh) (actor : Actor) (kind message : String) (details : List (String × Scalar))
    (g : Group)
    → let g' = append_log_by f actor kind message details g in
      (length (log_of g') ≤ max_group_logs)
      × ((n : ℕ) × (e : LogEntry) × (log_of g' ≡ drop n (log_of g) ++ e ∷ [])
          × (e.kind ≡ kind)
          × (e.message ≡ message)
          × (e.created_at ≡ f.now))
      × (g'.status ≡ g.status)
unfolding append_log_by
append_log_by_lem f actor kind message details g =
    let e : LogEntry = log_entry f actor kind message details in
    let (n, kept) = cap_logs-append_last (log_of g) e in
    (length-cap_logs _, (n, e, kept, refl, refl, refl), refl)
