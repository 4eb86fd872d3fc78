-- ===== src/Webhook/AdmissionState/Freshness.antt =====
-- Staleness, resetting and expiry of pkg/webhook/admission_state.go.
use spotalis.Common.{
  All, String, ◌≡◌, ◌↔◌, refl, true, false, Option, none, some, List, [], ◌∷◌, ℤ, pos, ◌≤ℤ◌, str_eq,
  eq_iff, eq_refl, arith, Bool-cases, inl, inr, Option-cases, ◌∙◌, ap, sym, ◌⊎◌,
}
use spotalis.Common.Time.{Time, since, sub_time}
use spotalis.Webhook.AdmissionState.{
  PendingAdmission, AdmissionStateTracker, generation_changed, counts, any_entry,
  get_pending_counts, check_staleness, update_pod_list_metadata, reset_pending, cleanup,
  cleanup_loop, LoopEvent, tick, stop_received, unexpired,
}
use spotalis.Webhook.AdmissionState.Laws.{==ℤ_refl}

-- The ticks that the goroutine receives before it is stopped.
abbrev pub ticks : List LoopEvent → List Time
ticks [] = []
ticks (tick now ∷ es) = now ∷ ticks es
ticks (stop_received ∷ es) = []

abbrev pub IsAlive : ℤ → PendingAdmission → Time → Type 0
IsAlive ttl p now = sub_time now p.last_updated ≤ℤ ttl

unexpired_iff :
    (now : Time) (ttl : ℤ) (e : Option PendingAdmission) (p : PendingAdmission)
    → (unexpired now ttl e ≡ some p) ↔ ((e ≡ some p) × IsAlive ttl p now)
unexpired_iff now ttl none p = ground arith
unexpired_iff now ttl (some q) p = ground arith

-- An entry is in the tracker after the goroutine has run exactly when it was there before and was
-- no older than the time to live at every tick before the stop.
pub cleanup_loop_iff :
    (es : List LoopEvent) (t : AdmissionStateTracker) (k : String) (p : PendingAdmission)
    → ((cleanup_loop es t).pending k ≡ some p)
      ↔ ((t.pending k ≡ some p) × All (IsAlive t.ttl p) (ticks es))
unfolding cleanup_loop
cleanup_loop_iff [] t k p = (λ e. (e, tt), λ h. h.0)
cleanup_loop_iff (tick now ∷ es) t k p =
    let ih = cleanup_loop_iff es (cleanup now t) k p in
    let one = unexpired_iff now t.ttl (t.pending k) p in
    (
      λ e. let (q, rest) = ih.0 e in ((one.0 q).0, ((one.0 q).1, rest)),
      λ h. ih.1 (one.1 (h.0, h.1.0), h.1.1),
    )
cleanup_loop_iff (stop_received ∷ es) t k p = (λ e. (e, tt), λ h. h.0)

module _ (now : Time) (k : String) (g : ℤ) (t : AdmissionStateTracker) where
  -- Recording a list of pods changes no count, of any key at any generation.
  pub get-update :
      (version : String) (j : String) (g' : ℤ)
      → get_pending_counts (update_pod_list_metadata now k version g t) j g'
        ≡ get_pending_counts t j g'
  unfolding get_pending_counts update_pod_list_metadata
  get-update version j g' = elim (Bool-cases (str_eq j k)) [
    | inl same ↦
        rw same (
          entry_counts (t.pending k)
          ∙ ap (λ x. counts g' (t.pending x)) (sym ((eq_iff j k).0 same)))
    | inr other ↦ rw other
  ]
    where
      entry_counts :
          (e : Option PendingAdmission)
          → counts g' (
              some (record (any_entry e g) {
                pod_list_resource_version = version;
                pod_list_time = now;
                last_updated = now;
              }))
            ≡ counts g' e
      entry_counts none = ground arith
      entry_counts (some p) = refl

  -- A reset of a key leaves it with no pending admission, and not stale at its generation for as
  -- long as the list of pods is not too old; the counts of every other key are as before.
  pub reset_fresh :
      (later : Time) (j : String) (g' : ℤ)
      → since later now ≤ℤ t.pod_list_max_age
      → let t' = reset_pending now k g t in
        ((check_staleness later t' k g).is_stale ≡ false)
        × (get_pending_counts t' k g' ≡ (pos 0, pos 0))
        × ((str_eq j k ≡ true) ⊎ (get_pending_counts t' j g' ≡ get_pending_counts t j g'))
  unfolding check_staleness get_pending_counts reset_pending
  reset_fresh later j g' h =
      (rw (eq_refl k) (ground (arith, ==ℤ_refl g)), rw (eq_refl k) (ground arith), ground arith)

  -- Where the staleness check reports that the generation has changed, the pending counts of the
  -- key at the current generation are both zero.
  pub stale_counts :
      (check_staleness now t k g).reason ≡ generation_changed
      → get_pending_counts t k g ≡ (pos 0, pos 0)
  unfolding check_staleness get_pending_counts
  stale_counts h = elim (Option-cases (t.pending k)) [ inl e ↦ rw e | inr (p, e) ↦ ground arith ]
