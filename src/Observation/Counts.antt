-- ===== src/Observation/Counts.antt =====
-- The counts of pkg/observation/workload.go, and how many pods there are.
use spotalis.Common.{
  ℕ, suc, ◌+◌, ◌≡◌, refl, Bool, true, false, not, ◌&&◌, if◌then◌else◌, List, [], ◌∷◌, ℤ, pos, ◌+ℤ◌,
  arith, ◌∙◌, ap,
}
use spotalis.Common.Words.{wrap32, ◌+i32◌}
use spotalis.Apis.NodeType.{NodeType}
use spotalis.Observation.{
  ObservedPod, Snapshot, is_gone, is_spot, is_on_demand, count_capacity, count_pods, actual_counts,
}

-- How many pods of a class of nodes are not gone.
unfoldable pub number : (NodeType → Bool) → List ObservedPod → ℕ
number is_class [] = 0
number is_class (p ∷ ps) =
    let rest = number is_class ps in
    if not (is_gone p.lifecycle) && is_class p.capacity then suc rest else rest

wrap32-next : (n : ℕ) → wrap32 (pos n) +i32 pos 1 ≡ wrap32 (pos (suc n))
unfolding wrap32 ◌+ℤ◌
wrap32-next n = ground arith

-- Two counts, in 32 bits.
abbrev pub both32 : ℕ → ℕ → ℤ × ℤ
both32 a b = (wrap32 (pos a), wrap32 (pos b))

pairs : {a b c d : ℕ} → a ≡ c → b ≡ d → both32 a b ≡ both32 c d
pairs p q = rw (p, q) refl

one : Bool → Bool → ℕ
one gone counts = if not gone && counts then 1 else 0

counted_one :
    (gone : Bool) (t : NodeType) (a b : ℕ)
    → (if gone then both32 a b else count_capacity t (both32 a b))
      ≡ both32 (a + one gone (is_spot t)) (b + one gone (is_on_demand t))
unfolding one is_spot is_on_demand
counted_one true t a b = pairs (omega arith) (omega arith)
counted_one false NodeType.spot a b =
    ap (λ x. (x, wrap32 (pos b))) (wrap32-next a) ∙ pairs (omega arith) (omega arith)
counted_one false NodeType.on_demand a b =
    ap (λ x. (wrap32 (pos a), x)) (wrap32-next b) ∙ pairs (omega arith) (omega arith)
counted_one false NodeType.unknown a b = pairs (omega arith) (omega arith)

number_cons :
    (is_class : NodeType → Bool) (p : ObservedPod) (ps : List ObservedPod)
    → number is_class (p ∷ ps)
      ≡ one (is_gone p.lifecycle) (is_class p.capacity) + number is_class ps
unfolding number one
number_cons is_class p ps = ground arith

counted :
    (ps : List ObservedPod) (a b : ℕ)
    → count_pods ps (both32 a b) ≡ both32 (a + number is_spot ps) (b + number is_on_demand ps)
unfolding count_pods number
counted [] a b = pairs (omega arith) (omega arith)
counted (p ∷ ps) a b =
    ap (count_pods ps) (counted_one (is_gone p.lifecycle) p.capacity a b)
    ∙ counted ps (a + one (is_gone p.lifecycle) (is_spot p.capacity))
        (b + one (is_gone p.lifecycle) (is_on_demand p.capacity))
    ∙ pairs (omega (arith, number_cons is_spot p ps)) (omega (arith, number_cons is_on_demand p ps))

-- ActualCounts counts the pods on spot and on on-demand nodes that are not gone, in 32 bits.
pub actual_counts_lem :
    (s : Snapshot) → actual_counts s ≡ both32 (number is_spot s.pods) (number is_on_demand s.pods)
unfolding actual_counts wrap32
actual_counts_lem s = counted s.pods 0 0 ∙ pairs (omega arith) (omega arith)
