-- ===== src/Apis/DisruptionPolicy/Count.antt =====
-- The number of disruptions that a DisruptionPolicy still allows.
use spotalis.Common.{
  ℕ, zero, suc, sym, ◌+◌, ◌-◌, ◌<◌, ◌≤◌, ◌^◌, ◌≡◌, false, not, if◌then◌else◌, Option, none, some, ℤ,
  pos, ◌-ℤ◌, ltb_ℤ, leb_ℤ, arith, ltb, pos_part, neg_part, ◌∙◌, ap,
}
use spotalis.Common.Time.{Time}
use spotalis.Common.Words.{wrap32_id, ◌-i32◌}
use spotalis.Apis.DisruptionPolicy.{
  DisruptionPolicy, IntOrString, calculate_can_disrupt, record_disruption,
  get_max_allowed_disruptions, resolved, limit_by_min, limit_by_max,
}
use spotalis.Apis.DisruptionPolicy.Verdict.{Sized, IsBound, can_disrupt_lem, recorded, minus32}

-- A limit that is below the number of pods, and so that taking the disrupted pods off does not wrap.
record Fits (t c : ℕ) (limit : ℤ) : Type 0 where
  low : neg_part limit + c ≤ 2 ^ 31
  high : pos_part limit ≤ t

min_limit :
    (bound : Option IntOrString) (t c : ℕ)
    → c < t
    → t < 2 ^ 31
    → IsBound bound (pos t)
    → (ltb_ℤ (pos c) (limit_by_min bound (pos t) (pos t))
        ≡ not (resolved bound (pos t) (λ n. leb_ℤ (pos (t - c)) n)))
      × Fits t c (limit_by_min bound (pos t) (pos t))
unfolding limit_by_min resolved ◌-ℤ◌
min_limit none t c left small h = (ground arith, ground arith)
min_limit (some bound) t c left small h =
    rw (h.1, minus32 t h.0 small h.2) (ground arith, ground arith)

max_limit :
    (bound : Option IntOrString) (t c : ℕ) (limit : ℤ)
    → IsBound bound (pos t)
    → c < t
    → t < 2 ^ 31
    → Fits t c limit
    → (ltb_ℤ (pos c) (limit_by_max bound (pos t) limit)
        ≡ (if resolved bound (pos t) (λ n. leb_ℤ n (pos c)) then false else ltb_ℤ (pos c) limit))
      × Fits t c (limit_by_max bound (pos t) limit)
unfolding limit_by_max resolved
max_limit none t c limit h left small fits = (ground arith, fits)
max_limit (some bound) t c limit h left small fits = rw h.1 (ground arith, ground arith)

remaining :
    (t c : ℕ) (limit : ℤ)
    → t < 2 ^ 31
    → c ≤ t
    → Fits t c limit
    → (if ltb_ℤ (limit -i32 pos c) (pos 0) then pos 0 else limit -i32 pos c)
      ≡ pos (pos_part limit - c)
unfolding ◌-ℤ◌
remaining t c limit small le fits =
    let exact : limit -i32 pos c ≡ limit -ℤ pos c = wrap32_id (limit -ℤ pos c) (ground arith) in
    rw exact (ground arith)

module _ (now : Time) (d : DisruptionPolicy) (s : Sized now d) (left : s.disrupted < s.total) where
  limit : ℤ
  limit =
      limit_by_max d.max_unavailable (pos s.total)
        (limit_by_min d.min_available (pos s.total) (pos s.total))

  bounds : IsBound d.min_available (pos s.total) × IsBound d.max_unavailable (pos s.total)
  bounds = rw (← s.total_is) (s.min_bound, s.max_bound)

  limit_lem :
      (calculate_can_disrupt now d ≡ ltb_ℤ (pos s.disrupted) limit) × Fits s.total s.disrupted limit
  unfolding limit
  limit_lem =
      let lower = min_limit d.min_available s.total s.disrupted left s.small bounds.0 in
      let upper =
        max_limit d.max_unavailable s.total s.disrupted
          (limit_by_min d.min_available (pos s.total) (pos s.total)) bounds.1 left s.small
          lower.1 in
      (rw (can_disrupt_lem now d s left, upper.0, lower.0) (ground arith), upper.1)

  -- The number of pods left to the limit.
  count_lem : get_max_allowed_disruptions d ≡ pos (pos_part limit - s.disrupted)
  unfolding get_max_allowed_disruptions limit
  count_lem =
      rw (s.has_budget, s.total_is, s.disrupted_is)
        (remaining s.total s.disrupted limit s.small (omega (arith, s.disrupted_le)) limit_lem.1)

  -- A disruption is allowed exactly when the count of those allowed is not nothing.
  pub verdict_count : calculate_can_disrupt now d ≡ ltb_ℤ (pos 0) (get_max_allowed_disruptions d)
  verdict_count = rw (limit_lem.0, count_lem) (ground arith)

-- After a disruption that leaves a pod, the policy is sized as before.
pub record-Sized :
    (now : Time) (d : DisruptionPolicy) (s : Sized now d)
    → s.disrupted < s.total
    → Sized now (record_disruption (pos 1) now d)
unfolding record_disruption
record-Sized now d s left = record {
  total = s.total;
  disrupted = s.disrupted + 1;
  total_is = s.total_is;
  disrupted_is = recorded now d s left;
  small = s.small;
  disrupted_le = omega arith;
  budget = s.budget;
  has_budget = s.has_budget;
  min_bound = s.min_bound;
  max_bound = s.max_bound;
  within = s.within;
}

-- Recording n disruptions, one by one.
unfoldable pub record_many : ℕ → Time → DisruptionPolicy → DisruptionPolicy
record_many zero now d = d
record_many (suc n) now d = record_many n now (record_disruption (pos 1) now d)

-- Each disruption that leaves two pods uses up one of those allowed.
record-count :
    (now : Time) (d : DisruptionPolicy) (s : Sized now d) (count : ℕ)
    → s.disrupted + 1 < s.total
    → get_max_allowed_disruptions d ≡ pos count
    → get_max_allowed_disruptions (record_disruption (pos 1) now d) ≡ pos (count - 1)
unfolding record_disruption limit record-Sized
record-count now d s count spare is =
    let left : s.disrupted < s.total = omega arith in
    let here : count ≡ pos_part (limit now d s left) - s.disrupted =
      ap pos_part (sym is ∙ count_lem now d s left) in
    count_lem now _ (record-Sized now d s left) spare ∙ ap pos (omega (arith, here))

-- For a policy with a budget, at a time within its window, whose bounds resolve and whose sizes are
-- of 32 bits, and which has more pods left than it counts disruptions as allowed: each of these is
-- let through when they are recorded one after the other, and the next one is not.
pub record_many-count :
    (n : ℕ) (now : Time) (d : DisruptionPolicy) (s : Sized now d) (count : ℕ)
    → get_max_allowed_disruptions d ≡ pos count
    → s.disrupted + count < s.total
    → n ≤ count
    → (get_max_allowed_disruptions (record_many n now d) ≡ pos (count - n))
      × (calculate_can_disrupt now (record_many n now d) ≡ ltb n count)
unfolding record_many record-Sized
record_many-count zero now d s count is spare h =
    let verdict = verdict_count now d s (omega arith) in
    (is ∙ ap pos (omega arith), rw (verdict, is) (ground arith))
record_many-count (suc n) now d s count is spare h =
    let left : s.disrupted < s.total = omega arith in
    let next = record-Sized now d s left in
    let fewer : get_max_allowed_disruptions (record_disruption (pos 1) now d) ≡ pos (count - 1) =
      record-count now d s count (omega arith) is in
    let rest =
      record_many-count n now (record_disruption (pos 1) now d) next (count - 1) fewer (omega arith)
        (omega arith) in
    (rest.0 ∙ ap pos (omega arith), rest.1 ∙ ground arith)
