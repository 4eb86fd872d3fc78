-- ===== src/Apis/Configuration/RoundTrip.antt =====
-- Annotations written by ToAnnotations of pkg/apis/configuration.go and read by ParseFromAnnotations.
use spotalis.Common.{
  ◌^◌, ◌≡◌, refl, ◌⊎◌, inl, inr, true, Option, none, some, [], ◌∷◌, ◌++◌, ok, >>=-eq-ok, ℤ, pos,
  arith, Option-cases, ap, sym, subst,
}
use spotalis.Common.Text.{Text, trim_suffix, trim_suffix-append}
use spotalis.Common.Words.{IsI32}
use spotalis.Common.Strconv.{parse_int, format_int, parse_int-format_int, parse_int_bounds}
use Prim.{Unit, tt}
use spotalis.Kube.{StringMap}
use spotalis.Apis.Policy.{WorkloadPolicy, validate_replica_allocation_policy}
use spotalis.Apis.Configuration.{
  WorkloadConfiguration, allocation_policy, unset, set_min_on_demand, set_spot_percentage,
  parse_from_annotations, to_annotations, read_min_on_demand, read_spot_percentage, check_policy,
}

-- The policy holds the resolved value, or the field was omitted and the resolved value is zero.
abbrev Agrees : Option ℤ → ℤ → Type 0
Agrees none v = v ≡ pos 0
Agrees (some p) v = p ≡ v

pub record IsParsed (w : WorkloadConfiguration) : Type 0 where
  pub is_enabled : w.enabled ≡ true
  pub min_agrees : Agrees w.policy.min_on_demand w.min_on_demand
  pub spot_agrees : Agrees w.policy.spot_percentage w.spot_percentage
  pub min_i32 : IsI32 w.min_on_demand
  pub spot_i32 : IsI32 w.spot_percentage
  pub valid : validate_replica_allocation_policy (pos 0) (allocation_policy w) ≡ none

read_min-format :
    (m : ℤ) (u : WorkloadConfiguration)
    → IsI32 m
    → read_min_on_demand (some (format_int m)) u ≡ ok (set_min_on_demand m u)
unfolding read_min_on_demand
read_min-format m u h = rw (parse_int-format_int (2 ^ 31) m h.0 h.1, read_min_on_demand)

read_spot-format :
    (s : ℤ) (u : WorkloadConfiguration)
    → IsI32 s
    → read_spot_percentage (some (format_int s ++ b'%' ∷ [])) u ≡ ok (set_spot_percentage s u)
unfolding read_spot_percentage
read_spot-format s u h =
    rw (trim_suffix-append b'%' (format_int s), read_spot_percentage)
      (rw (parse_int-format_int (2 ^ 31) s h.0 h.1))

check-valid :
    (w : WorkloadConfiguration)
    → validate_replica_allocation_policy (pos 0) (allocation_policy w) ≡ none
    → check_policy w ≡ ok w
unfolding check_policy
check-valid w h = rw (h, check_policy)

abbrev configured : ℤ → ℤ → Option ℤ → Option ℤ → WorkloadConfiguration
configured m s pm ps = record {
  enabled = true;
  min_on_demand = m;
  spot_percentage = s;
  policy = record { min_on_demand = pm; spot_percentage = ps };
}

-- A reading in three steps.
parse_steps :
    (a : StringMap) (u v w : WorkloadConfiguration)
    → read_min_on_demand (a "spotalis.io/min-on-demand") (unset true) ≡ ok u
    → read_spot_percentage (a "spotalis.io/spot-percentage") u ≡ ok v
    → check_policy v ≡ ok w
    → parse_from_annotations (some a) true ≡ ok w
unfolding parse_from_annotations
parse_steps a u v w p q r = rw p (rw q r)

-- The policy of a configuration that has been written and read: where both fields were omitted, the
-- resolved values have been written for them.
abbrev filled : ℤ → ℤ → Option ℤ → Option ℤ → WorkloadPolicy
filled m s none none = record { min_on_demand = some m; spot_percentage = some s }
filled m s none (some q) = record { min_on_demand = none; spot_percentage = some q }
filled m s (some p) ps = record { min_on_demand = some p; spot_percentage = ps }

abbrev pub read_back : WorkloadConfiguration → WorkloadConfiguration
read_back w = record w {
  policy = filled w.min_on_demand w.spot_percentage w.policy.min_on_demand w.policy.spot_percentage;
}

-- The two fields agree, or both were omitted.
abbrev FieldsAgree : Option ℤ → Option ℤ → ℤ → ℤ → Type 0
FieldsAgree none none m s = Unit {0}
FieldsAgree none (some q) m s = Agrees none m × Agrees (some q) s
FieldsAgree (some p) ps m s = Agrees (some p) m × Agrees ps s

-- An enabled configuration of values that are in range, whose policy has the values that are
-- resolved: a field may be omitted where the value is zero, and both may be.
pub record IsWritable (w : WorkloadConfiguration) : Type 0 where
  pub is_enabled : w.enabled ≡ true
  pub agree :
      FieldsAgree w.policy.min_on_demand w.policy.spot_percentage w.min_on_demand w.spot_percentage
  pub min_i32 : IsI32 w.min_on_demand
  pub spot_i32 : IsI32 w.spot_percentage
  pub valid : validate_replica_allocation_policy (pos 0) (allocation_policy w) ≡ none

written_back :
    (m s : ℤ) (pm ps : Option ℤ)
    → IsWritable (configured m s pm ps)
    → parse_from_annotations (some (to_annotations (configured m s pm ps))) true
      ≡ ok (read_back (configured m s pm ps))
unfolding to_annotations allocation_policy read_min_on_demand read_spot_percentage
written_back m s none none h =
    let a = to_annotations (configured m s none none) in
    let u = set_min_on_demand m (unset true) in
    let v = set_spot_percentage s u in
    parse_steps a u v v (read_min-format m (unset true) h.min_i32) (read_spot-format s u h.spot_i32)
      (check-valid v h.valid)
written_back m s none (some p) h =
    let a = to_annotations (configured m s none (some p)) in
    let v = set_spot_percentage s (unset true) in
    let (zero_min, same) = h.agree in
    let e : v ≡ configured m s none (some p) = rw (zero_min, same) refl in
    parse_steps a (unset true) v _ refl (read_spot-format s (unset true) h.spot_i32)
      (subst (λ w. check_policy v ≡ ok w) e (check-valid v (rw zero_min at h.valid)))
written_back m s (some p) none h =
    let a = to_annotations (configured m s (some p) none) in
    let v = set_min_on_demand m (unset true) in
    let (same, zero_spot) = h.agree in
    let e : v ≡ configured m s (some p) none = rw (zero_spot, same) refl in
    parse_steps a v v _ (read_min-format m (unset true) h.min_i32) refl
      (subst (λ w. check_policy v ≡ ok w) e (check-valid v (rw zero_spot at h.valid)))
written_back m s (some p) (some q) h =
    let a = to_annotations (configured m s (some p) (some q)) in
    let u = set_min_on_demand m (unset true) in
    let v = set_spot_percentage s u in
    let (same, same_too) = h.agree in
    let e : v ≡ configured m s (some p) (some q) = rw (same, same_too) refl in
    parse_steps a u v _ (read_min-format m (unset true) h.min_i32) (read_spot-format s u h.spot_i32)
      (subst (λ w. check_policy v ≡ ok w) e (check-valid v h.valid))

-- A configuration that is enabled, in range, and whose policy has the values that are resolved, with
-- a field omitted only where its value is zero or both are, comes back as it was when it is written
-- to annotations and these are read; if both fields of the policy were omitted, the resolved values
-- have taken their place.
pub parse-to_annotations :
    (w : WorkloadConfiguration)
    → IsWritable w
    → parse_from_annotations (some (to_annotations w)) true ≡ ok (read_back w)
parse-to_annotations w h =
    let same : configured w.min_on_demand w.spot_percentage w.policy.min_on_demand
          w.policy.spot_percentage
        ≡ w =
      ap (λ b. record w { enabled = b }) (sym h.is_enabled) in
    subst (λ v. parse_from_annotations (some (to_annotations v)) true ≡ ok (read_back v)) same
      (written_back w.min_on_demand w.spot_percentage w.policy.min_on_demand
        w.policy.spot_percentage (subst IsWritable (sym same) h))

-- What a reading of a field leaves: the configuration as it was, or with a value of 32 bits.
read_min-inv :
    (o : Option Text) (u v : WorkloadConfiguration)
    → read_min_on_demand o u ≡ ok v
    → (v ≡ u) ⊎ ((m : ℤ) × (v ≡ set_min_on_demand m u) × IsI32 m)
unfolding read_min_on_demand
read_min-inv none u v h = inl (ground arith)
read_min-inv (some text) u v h = elim (Option-cases (parse_int (2 ^ 31) text)) [
  | inl e ↦ cc (h, e)
  | inr (m, e) ↦ inr (m, cc (h, e), parse_int_bounds (2 ^ 31) text m (omega arith) e)
]

read_spot-inv :
    (o : Option Text) (u v : WorkloadConfiguration)
    → read_spot_percentage o u ≡ ok v
    → (v ≡ u) ⊎ ((s : ℤ) × (v ≡ set_spot_percentage s u) × IsI32 s)
unfolding read_spot_percentage
read_spot-inv none u v h = inl (ground arith)
read_spot-inv (some text) u v h = elim (Option-cases (parse_int (2 ^ 31) (trim_suffix b'%' text))) [
  | inl e ↦ cc (h, e)
  | inr (s, e) ↦
      inr (s, cc (h, e), parse_int_bounds (2 ^ 31) (trim_suffix b'%' text) s (omega arith) e)
]

check_policy-inv :
    (v w : WorkloadConfiguration)
    → check_policy v ≡ ok w
    → (v ≡ w) × (validate_replica_allocation_policy (pos 0) (allocation_policy w) ≡ none)
unfolding check_policy
check_policy-inv v w h =
    elim (Option-cases (validate_replica_allocation_policy (pos 0) (allocation_policy v))) [
      | inl e ↦ let q : v ≡ w = cc (h, e) in (q, rw (← q) e)
      | inr (x, e) ↦ cc (h, e)
    ]

-- The fields agree after the two readings.
read-IsParsed :
    (u v w : WorkloadConfiguration)
    → (u ≡ unset true) ⊎ ((m : ℤ) × (u ≡ set_min_on_demand m (unset true)) × IsI32 m)
    → (v ≡ u) ⊎ ((s : ℤ) × (v ≡ set_spot_percentage s u) × IsI32 s)
    → (v ≡ w) × (validate_replica_allocation_policy (pos 0) (allocation_policy w) ≡ none)
    → IsParsed w
read-IsParsed u v w p q r = ground arith

parse-IsParsed :
    (a : StringMap) (w : WorkloadConfiguration)
    → parse_from_annotations (some a) true ≡ ok w
    → IsParsed w
unfolding parse_from_annotations
parse-IsParsed a w h =
    let (u, p, h') =
      >>=-eq-ok (read_min_on_demand (a "spotalis.io/min-on-demand") (unset true)) _ h in
    let (v, q, r) = >>=-eq-ok (read_spot_percentage (a "spotalis.io/spot-percentage") u) _ h' in
    read-IsParsed u v w (read_min-inv _ (unset true) u p) (read_spot-inv _ u v q)
      (check_policy-inv v w r)

fields_agree : (m s : ℤ) (pm ps : Option ℤ) → Agrees pm m → Agrees ps s → FieldsAgree pm ps m s
fields_agree m s none none a b = tt
fields_agree m s none (some q) a b = (a, b)
fields_agree m s (some p) ps a b = (a, b)

parsed-IsWritable : (w : WorkloadConfiguration) → IsParsed w → IsWritable w
parsed-IsWritable w p = record {
  is_enabled = p.is_enabled;
  agree =
      fields_agree _ _ w.policy.min_on_demand w.policy.spot_percentage p.min_agrees p.spot_agrees;
  min_i32 = p.min_i32;
  spot_i32 = p.spot_i32;
  valid = p.valid;
}

-- So does every configuration that was read from annotations.
pub parse-reparsed :
    (a : StringMap) (w : WorkloadConfiguration)
    → parse_from_annotations (some a) true ≡ ok w
    → parse_from_annotations (some (to_annotations w)) true ≡ ok (read_back w)
parse-reparsed a w h = parse-to_annotations w (parsed-IsWritable w (parse-IsParsed a w h))
