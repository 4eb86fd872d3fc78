-- ===== src/Webhook/Mutate/Interleaving.antt =====
-- Admissions of several pods at the same time, in pkg/webhook/mutate.go: each locks the tracker of
-- pkg/webhook/admission_state.go twice, in UpdatePodListMetadata and in SelectAndReserve, and the
-- locked steps of different admissions come in any order.
use spotalis.Common.{
  ℕ, String, ◌≡◌, refl, true, List, [], ◌∷◌, ℤ, pos, ◌+◌, ◌-◌, str_eq, eq_iff, All, Bool-cases, inl,
  inr, if◌then◌else◌, ap, sym, ◌∙◌, length,
}
use spotalis.Common.Time.{Time}
use spotalis.Webhook.AdmissionState.{
  AdmissionStateTracker, Observed, get_pending_counts, update_pod_list_metadata, select_and_reserve,
}
use spotalis.Webhook.AdmissionState.Laws.{choose, add_one, get-reserve, get-reserve_other}
use spotalis.Webhook.AdmissionState.Freshness.{get-update}
use spotalis.Webhook.AdmissionState.Reserve.{Fits, spot_share, reserve_all, reserve_burst}

-- A locked step of an admission, on the key and at the generation of its workload.
pub data LockedStep : Type 0 where
  metadata : Time → String → ℤ → LockedStep
  selection : Time → String → ℤ → Observed → LockedStep

abbrev pub step : LockedStep → AdmissionStateTracker → AdmissionStateTracker
step (metadata now k g) t = update_pod_list_metadata now k "" g t
step (selection now k g o) t = (select_and_reserve now k g o t).0

pub run : List LockedStep → AdmissionStateTracker → AdmissionStateTracker
run [] t = t
run (s ∷ steps) t = run steps (step s t)

-- The times of the selections on a key.
abbrev pub selections : String → List LockedStep → List Time
selections k [] = []
selections k (metadata now j g ∷ steps) = selections k steps
selections k (selection now j g o ∷ steps) =
    let rest = selections k steps in if str_eq k j then now ∷ rest else rest

-- A selection on the key is at this generation and has this observation.
abbrev pub IsOf : String → ℤ → Observed → LockedStep → Type 0
IsOf k g o (metadata now j g') = Unit
IsOf k g o (selection now j g' o') = str_eq k j ≡ true → (g' ≡ g) × (o' ≡ o)

-- The counts of the key are those of its selections alone.
run-reserve_all :
    (steps : List LockedStep) (k : String) (g : ℤ) (o : Observed) (t u : AdmissionStateTracker)
    → All (IsOf k g o) steps
    → get_pending_counts t k g ≡ get_pending_counts u k g
    → get_pending_counts (run steps t) k g
      ≡ get_pending_counts (reserve_all (selections k steps) k g o u) k g
unfolding run reserve_all
run-reserve_all [] k g o t u h e = e
run-reserve_all (metadata now j g' ∷ steps) k g o t u (_, h) e =
    run-reserve_all steps k g o (update_pod_list_metadata now j "" g' t) u h
      (get-update now j g' t "" k g ∙ e)
run-reserve_all (selection now j g' o' ∷ steps) k g o t u (own, h) e =
    elim (Bool-cases (str_eq k j)) [
      | inl same ↦
          let next = (select_and_reserve now j g' o' t).0 in
          let own_step : next ≡ (select_and_reserve now k g o t).0 =
            cc ((eq_iff k j).0 same, (own same).0, (own same).1) in
          rw same (
            run-reserve_all steps k g o next (select_and_reserve now k g o u).0 h (
              ap (λ x. get_pending_counts x k g) own_step
              ∙ get-reserve now k g t o
              ∙ ap (λ n. add_one (choose o n) n) e
              ∙ sym (get-reserve now k g u o)))
      | inr other ↦ rw other (
          run-reserve_all steps k g o (select_and_reserve now j g' o' t).0 u h
            (get-reserve_other now j g' t k g o' other ∙ e))
    ]

-- However the locked steps of admissions interleave, those of other workloads included: if the
-- selections on a key are at one generation and have one observation, they fill the on-demand target
-- first, then the spot target, and put the rest on demand. From pending counts s and d, n selections
-- take exactly `spot_share` spot places.
pub interleaved_burst :
    (steps : List LockedStep) (k : String) (g : ℤ) (o : Observed) (t : AdmissionStateTracker)
    (s d : ℕ)
    → All (IsOf k g o) steps
    → get_pending_counts t k g ≡ (pos s, pos d)
    → Fits o s d (length (selections k steps))
    → let n = length (selections k steps) in
      let x = spot_share o s d n in
      get_pending_counts (run steps t) k g ≡ (pos (s + x), pos (d + (n - x)))
interleaved_burst steps k g o t s d h e fits =
    run-reserve_all steps k g o t t h refl ∙ reserve_burst (selections k steps) k g o t s d e fits
