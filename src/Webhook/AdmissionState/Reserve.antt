-- ===== src/Webhook/AdmissionState/Reserve.antt =====
-- A burst of admissions of one workload: SelectAndReserve of pkg/webhook/admission_state.go, again
-- and again, while the list of the pods stays the same.
use Prim.Native.Nat.{min}
use spotalis.Common.{
  ℕ, suc, ◌+◌, ◌-◌, ◌^◌, ◌<◌, String, ◌≡◌, List, [], ◌∷◌, ℤ, pos, ◌+ℤ◌, arith, length, pos_part,
  neg_part, ap, ◌∙◌,
}
use spotalis.Common.Words.{wrap32, wrap64, wrap32_id, wrap64_id}
use spotalis.Common.Time.{Time}
use spotalis.Webhook.AdmissionState.{
  AdmissionStateTracker, Observed, get_pending_counts, select_and_reserve,
}
use spotalis.Webhook.AdmissionState.Laws.{choose, add_one, get-reserve}

-- The reservations of a burst, one at each of the times.
unfoldable pub reserve_all :
    List Time → String → ℤ → Observed → AdmissionStateTracker → AdmissionStateTracker
reserve_all [] k g o t = t
reserve_all (now ∷ times) k g o t = reserve_all times k g o (select_and_reserve now k g o t).0

-- Numbers that a cluster can have: none is negative, and `room` admissions more fit 32 bits.
pub record Fits (o : Observed) (s d room : ℕ) : Type 0 where
  pub spot_nonneg : neg_part o.observed_spot ≡ 0
  pub on_demand_nonneg : neg_part o.observed_on_demand ≡ 0
  pub target_spot_nonneg : neg_part o.target_spot ≡ 0
  pub target_on_demand_nonneg : neg_part o.target_on_demand ≡ 0
  pub spot_room : pos_part o.observed_spot + s + room < 2 ^ 31
  pub on_demand_room : pos_part o.observed_on_demand + d + room < 2 ^ 31

-- The spot places that `k` admissions take: those that come after the on-demand places are filled,
-- up to the spot places that are left.
abbrev pub spot_share : Observed → ℕ → ℕ → ℕ → ℕ
spot_share o s d k =
    min (k - (pos_part o.target_on_demand - (pos_part o.observed_on_demand + d)))
      (pos_part o.target_spot - (pos_part o.observed_spot + s))

exact :
    (a : ℤ) (n : ℕ)
    → neg_part a ≡ 0
    → pos_part a + n < 2 ^ 31
    → wrap64 (a +ℤ pos n) ≡ pos (pos_part a + n)
unfolding ◌+ℤ◌
exact a n h k = ground (arith, wrap64_id (a +ℤ pos n))

one_more : (n : ℕ) → n < 2 ^ 31 - 1 → wrap32 (pos n +ℤ pos 1) ≡ pos (n + 1)
unfolding ◌+ℤ◌
one_more n h = ground (arith, wrap32_id (pos n +ℤ pos 1))

-- One choice, in numbers.
choose_numbers :
    (o : Observed) (s d room : ℕ)
    → Fits o s d (suc room)
    → let c = choose o (pos s, pos d) in
      let x = spot_share o s d 1 in
      (add_one c (pos s, pos d) ≡ (pos (s + x), pos (d + (1 - x))))
      × Fits o (s + x) (d + (1 - x)) room
choose_numbers o s d room h = ground (
  arith,
  exact o.observed_on_demand d h.on_demand_nonneg,
  exact o.observed_spot s h.spot_nonneg,
  one_more s,
  one_more d,
)

reserve_one :
    (now : Time) (k : String) (g : ℤ) (o : Observed) (t : AdmissionStateTracker) (s d : ℕ)
    → get_pending_counts t k g ≡ (pos s, pos d)
    → get_pending_counts (select_and_reserve now k g o t).0 k g
      ≡ add_one (choose o (pos s, pos d)) (pos s, pos d)
reserve_one now k g o t s d e = get-reserve now k g t o ∙ ap (λ c. add_one (choose o c) c) e

-- One admission and n more take what n + 1 admissions take.
shares_add :
    (o : Observed) (s d n : ℕ)
    → let x = spot_share o s d 1 in
      let y = spot_share o (s + x) (d + (1 - x)) n in
      let z = spot_share o s d (suc n) in
      ◌≡◌ {A = ℤ × ℤ}
        (pos (s + x + y), pos (d + (1 - x) + (n - y)))
        (pos (s + z), pos (d + (suc n - z)))
shares_add o s d n = ground arith

-- A burst of reservations fills the on-demand target first, then the spot target, and puts the rest
-- on demand: from pending counts s and d, the k admissions take exactly `spot_share` spot places.
pub reserve_burst :
    (times : List Time) (k : String) (g : ℤ) (o : Observed) (t : AdmissionStateTracker) (s d : ℕ)
    → get_pending_counts t k g ≡ (pos s, pos d)
    → Fits o s d (length times)
    → let n = length times in
      let x = spot_share o s d n in
      get_pending_counts (reserve_all times k g o t) k g ≡ (pos (s + x), pos (d + (n - x)))
unfolding reserve_all
reserve_burst [] k g o t s d e h = e ∙ ground arith
reserve_burst (now ∷ times) k g o t s d e h =
    let x = spot_share o s d 1 in
    let (one, fits) = choose_numbers o s d (length times) h in
    reserve_burst times k g o (select_and_reserve now k g o t).0 (s + x) (d + (1 - x))
      (reserve_one now k g o t s d e ∙ one) fits
    ∙ shares_add o s d (length times)
