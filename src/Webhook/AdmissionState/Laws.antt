-- ===== src/Webhook/AdmissionState/Laws.antt =====
-- How the operations of pkg/webhook/admission_state.go meet on the counts of a key.
use spotalis.Common.{
  String, ◌≡◌, refl, true, false, ◌&&◌, if◌then◌else◌, Option, none, some, ℤ, pos, ◌==ℤ◌, ltb_ℤ,
  leb_ℤ, ◌+ℤ◌, str_eq, eq_refl, arith, Bool-cases, inl, inr, ◌∙◌,
}
use spotalis.Common.Words.{wrap64, ◌+i32◌}
use spotalis.Common.Time.{Time}
use spotalis.Webhook.AdmissionState.{
  CapacityType, spot, on_demand, PendingAdmission, AdmissionStateTracker, Observed, counts,
  current_entry, bump, get_pending_counts, increment_pending, select_and_reserve,
}

-- One more of the capacity type.
abbrev pub add_one : CapacityType → ℤ × ℤ → ℤ × ℤ
add_one spot (s, d) = (s +i32 pos 1, d)
add_one on_demand (s, d) = (s, d +i32 pos 1)

-- The choice by the counts of spot and of on-demand admissions.
abbrev pub choose : Observed → ℤ × ℤ → CapacityType
choose o (s, d) =
    if leb_ℤ o.target_on_demand (wrap64 (o.observed_on_demand +ℤ d))
      && ltb_ℤ (wrap64 (o.observed_spot +ℤ s)) o.target_spot
    then spot
    else on_demand

pub ==ℤ_refl : (g : ℤ) → (g ==ℤ g) ≡ true
==ℤ_refl g = ground arith

counts-bump :
    (now : Time) (c : CapacityType) (e : Option PendingAdmission) (g g' : ℤ)
    → counts g' (some (bump now c (current_entry e g)))
      ≡ (if g ==ℤ g' then add_one c (counts g e) else (pos 0, pos 0))
unfolding bump current_entry
counts-bump now spot none g g' = ground arith
counts-bump now spot (some p) g g' = ground arith
counts-bump now on_demand none g g' = ground arith
counts-bump now on_demand (some p) g g' = ground arith

counts-current :
    (e : Option PendingAdmission) (g : ℤ)
    → counts g e ≡ ((current_entry e g).pending_spot, (current_entry e g).pending_on_demand)
unfolding current_entry
counts-current none g = refl
counts-current (some p) g = ground arith

module _ (now : Time) (k : String) (g : ℤ) (t : AdmissionStateTracker) where
  -- After an increment, its key has one admission more of its capacity type at its generation, and
  -- none at another generation; the counts of every other key are as before.
  pub get-increment :
      (c : CapacityType) (j : String) (g' : ℤ)
      → get_pending_counts (increment_pending now k c g t) j g' ≡ (
          if str_eq j k
          then (if g ==ℤ g' then add_one c (get_pending_counts t k g) else (pos 0, pos 0))
          else get_pending_counts t j g')
  unfolding get_pending_counts increment_pending
  get-increment c j g' = elim (Bool-cases (str_eq j k)) [
    | inl same ↦ rw same (counts-bump now c (t.pending k) g g')
    | inr other ↦ rw other
  ]

  -- The locked choice is the choice by the counts that GetPendingCounts returns, followed by
  -- IncrementPending of that choice.
  pub select_and_reserve_lem :
      (o : Observed)
      → let c = choose o (get_pending_counts t k g) in
        select_and_reserve now k g o t ≡ (increment_pending now k c g t, c)
  unfolding select_and_reserve get_pending_counts increment_pending
  select_and_reserve_lem o = rw (counts-current (t.pending k) g)

  -- After a reservation its key has, at its generation, one admission more of the chosen type.
  pub get-reserve :
      (o : Observed)
      → let n = get_pending_counts t k g in
        get_pending_counts (select_and_reserve now k g o t).0 k g ≡ add_one (choose o n) n
  get-reserve o =
      let c = choose o (get_pending_counts t k g) in
      rw (select_and_reserve_lem o) (simp (get-increment c k g, eq_refl, ==ℤ_refl g))

  -- A reservation leaves the counts of every other key as they are.
  pub get-reserve_other :
      (j : String) (g' : ℤ) (o : Observed)
      → str_eq j k ≡ false
      → get_pending_counts (select_and_reserve now k g o t).0 j g' ≡ get_pending_counts t j g'
  get-reserve_other j g' o h =
      let c = choose o (get_pending_counts t k g) in
      rw (select_and_reserve_lem o) (get-increment c j g' ∙ rw h refl)
