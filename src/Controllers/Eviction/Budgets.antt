-- ===== src/Controllers/Eviction/Budgets.antt =====
-- Which budget decides an eviction: CheckPDBStatus of pkg/controllers/eviction.go.
use spotalis.Common.{
  ◌≡◌, ◌↔◌, refl, Bool, true, false, Option, List, [], ◌∷◌, ◌++◌, All, ok, Bool-cases, inl, inr,
  pos, ◌<ℤ◌, arith, ap,
}
use Prim.{tt}
use spotalis.Kube.{LabelSelector, Pod, PodDisruptionBudget, StringMap}
use spotalis.Controllers.Eviction.{PdbStatus, matches, check_budgets, check_pdb_status}

module _ (as_selector : LabelSelector → Option (StringMap → Bool)) (pod : Pod) where
  -- The first budget that matches the pod.
  pub IsFirst : List PodDisruptionBudget → PodDisruptionBudget → Type 0
  IsFirst pdbs pdb =
      (before : List PodDisruptionBudget) × (after : List PodDisruptionBudget) × (pdbs
        ≡ before ++ pdb ∷ after)
      × All (λ p. matches as_selector pod p ≡ false) before
      × (matches as_selector pod pdb ≡ true)

  pub Blocked : List PodDisruptionBudget → Type 0
  Blocked pdbs = (pdb : PodDisruptionBudget) × IsFirst pdbs pdb × (pdb.disruptions_allowed <ℤ pos 1)

  Status : List PodDisruptionBudget → Type 0
  Status pdbs =
      (s : PdbStatus) × (check_pdb_status as_selector (ok pdbs) pod ≡ ok s)
      × (s.can_disrupt ≡ false)

  blocks :
      (pdbs : List PodDisruptionBudget)
      → (check_budgets as_selector pod pdbs).can_disrupt ≡ false
      → Blocked pdbs
  unfolding check_budgets Blocked IsFirst
  blocks [] h = cc h
  blocks (p ∷ ps) h = elim (Bool-cases (matches as_selector pod p)) [
    | inl m ↦ (p, ([], ps, refl, tt, m), ground (arith, m, rw m at h))
    | inr n ↦
        let (pdb, (before, after, e, skipped, m), lt) = blocks ps (rw n at h) in
        (pdb, (p ∷ before, after, ap (λ l. p ∷ l) e, (n, skipped), m), lt)
  ]

  blocked :
      (before after : List PodDisruptionBudget) (pdb : PodDisruptionBudget)
      → All (λ p. matches as_selector pod p ≡ false) before
      → matches as_selector pod pdb ≡ true
      → pdb.disruptions_allowed <ℤ pos 1
      → (check_budgets as_selector pod (before ++ pdb ∷ after)).can_disrupt ≡ false
  unfolding check_budgets
  blocked [] after pdb skipped m lt = rw m (ground arith)
  blocked (p ∷ before) after pdb (n, skipped) m lt = rw n (blocked before after pdb skipped m lt)

  -- A pod may not be disrupted exactly when the first budget that matches it allows fewer than one
  -- disruption; the budgets after that one are not asked.
  pub blocked_iff :
      (pdbs : List PodDisruptionBudget)
      → ((s : PdbStatus) × (check_pdb_status as_selector (ok pdbs) pod ≡ ok s)
          × (s.can_disrupt ≡ false))
        ↔ Blocked pdbs
  unfolding check_pdb_status Blocked IsFirst Status
  blocked_iff pdbs = (forth, back)
    where
      status : PdbStatus
      status = check_budgets as_selector pod pdbs

      forth : Status pdbs → Blocked pdbs
      forth (s, e, f) = blocks pdbs (cc (e, f))

      back : Blocked pdbs → Status pdbs
      back (pdb, (before, after, e, skipped, m), lt) =
          (status, refl, rw e (blocked before after pdb skipped m lt))
