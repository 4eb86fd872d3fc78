-- ===== src/Controllers/NamespaceFilter/Steps.antt =====
-- What each step of performFiltering in pkg/controllers/namespace_filter.go decides, the patterns aside.
use spotalis.Common.{
  ◌≡◌, ◌⊎◌, inl, inr, refl, String, Bool, true, false, if◌then◌else◌, Option, none, some, List, [],
  ◌∷◌, arith, str_eq, eq_iff, Bool-cases, Option-cases, subst,
}
use spotalis.Kube.{ObjectMeta}
use spotalis.Controllers.NamespaceFilter.{
  NamespaceFilterConfig, FilterResult, Reason, Rule, explicitly_excluded, exclude_namespace,
  include_namespace, not_in_include_list, include_namespace_check, namespace_not_found,
  namespace_not_found_rule, missing_required_labels, required_labels_check, has_forbidden_labels,
  forbidden_labels_check, has_forbidden_annotations, forbidden_annotations_check,
}
use spotalis.Controllers.NamespaceFilter.Rules.{
  contains, has_all, has_any, or_no_labels, is_empty, check_explicit_exclusion, Step, then_step,
  deny, pass, check_explicit_inclusion, check_metadata_requirements, apply_metadata_filters,
}

-- Some element satisfies a predicate.
abbrev pub Any {ℓ} : {A : Type ℓ} → (A → Type 0) → List A → Type 0
Any P [] = ⊥
Any P (x ∷ xs) = P x ⊎ Any P xs

pub contains-Any :
    (ns : String) (names : List String) → contains ns names ≡ true → Any (λ n. ns ≡ n) names
unfolding contains
contains-Any ns [] e = cc e
contains-Any ns (n ∷ names) e = elim (Bool-cases (str_eq ns n)) [
  | inl same ↦ inl ((eq_iff ns n).0 same)
  | inr other ↦ inr (contains-Any ns names (rw (contains, other) at e))
]

pub Any-contains :
    (ns : String) (names : List String) → Any (λ n. ns ≡ n) names → contains ns names ≡ true
unfolding contains
Any-contains ns [] a = absurd a
Any-contains ns (n ∷ names) (inl same) = ground (arith, (eq_iff ns n).1 same)
Any-contains ns (n ∷ names) (inr found) = ground (arith, Any-contains ns names found)

pub or_absurd : {A B : Type 0} → (A → ⊥) → (B → ⊥) → A ⊎ B → ⊥
or_absurd f g (inl a) = f a
or_absurd f g (inr b) = g b

-- What the client knows of a namespace: nothing where it is nil or cannot read it.
abbrev pub answer : Option (String → Option ObjectMeta) → String → Option ObjectMeta
answer none ns = none
answer (some get) ns = get ns

-- What is asked of the labels and the annotations of a namespace.
abbrev pub IsFitting : NamespaceFilterConfig → ObjectMeta → Type 0
IsFitting config meta =
    (has_all (or_no_labels meta.labels) config.required_labels ≡ true)
    × (has_any (or_no_labels meta.labels) config.forbidden_labels ≡ false)
    × (has_any (or_no_labels meta.annotations) config.forbidden_annotations ≡ false)

-- A step passes an allowed result on, still allowed, when the condition holds, and denies it when not.
pub data Decides (C : Type 0) (o : Option (Bool × FilterResult)) : Type 0 where
  passes : (r : FilterResult) → o ≡ some (false, r) → r.allowed ≡ true → C → Decides C o
  denies : (r : FilterResult) → o ≡ some (true, r) → r.allowed ≡ false → (C → ⊥) → Decides C o

pub then-Decides :
    (C D : Type 0) (f g : Step) (r : FilterResult)
    → Decides C (f r)
    → ((r' : FilterResult) → r'.allowed ≡ true → Decides D (g r'))
    → Decides (C × D) (then_step f g r)
then-Decides C D f g r (denies r' e a n) k = denies r' (rw (then_step, e) refl) a (λ p. n p.0)
then-Decides C D f g r (passes r' e a c) k = elim (k r' a) [
  | passes r'' e' a' d ↦ passes r'' (rw (then_step, e) e') a' (c, d)
  | denies r'' e' a' n ↦ denies r'' (rw (then_step, e) e') a' (λ p. n p.1)
]

abbrev pub denied : Reason → Rule → FilterResult → FilterResult
denied why rule r = record r { allowed = false; reason = why; matched_rule = rule }

-- A test that denies where it is true.
tested :
    (C : Type 0) (b : Bool) (reason : Reason) (rule : Rule) (r : FilterResult)
    → (b ≡ true → C → ⊥)
    → (b ≡ false → C)
    → r.allowed ≡ true
    → Decides C (if b then deny reason rule r else pass r)
tested C true why rule r refuted holds a =
    denies (record r { allowed = false; reason = why; matched_rule = rule }) refl refl
      (refuted refl)
tested C false why rule r refuted holds a = passes r refl a (holds refl)

pub exclusion-Decides :
    (config : NamespaceFilterConfig) (ns : String) (r : FilterResult)
    → r.allowed ≡ true
    → Decides
        (Any (λ n. ns ≡ n) config.exclude_namespaces → ⊥)
        (check_explicit_exclusion config ns r)
unfolding check_explicit_exclusion
exclusion-Decides config ns r a =
    let names = config.exclude_namespaces in
    tested (Any (λ n. ns ≡ n) names → ⊥) (contains ns names) explicitly_excluded
      (exclude_namespace ns) r (λ e n. n (contains-Any ns names e))
      (λ e f. cc (Any-contains ns names f, e)) a

pub inclusion-Decides :
    (config : NamespaceFilterConfig) (ns : String) (r : FilterResult)
    → r.allowed ≡ true
    → Decides
        ((config.include_namespaces ≡ []) ⊎ Any (λ n. ns ≡ n) config.include_namespaces)
        (check_explicit_inclusion config ns r)
unfolding check_explicit_inclusion
inclusion-Decides config ns r a = listed config.include_namespaces
  where
    listed :
        (names : List String)
        → Decides ((names ≡ []) ⊎ Any (λ n. ns ≡ n) names) (
            if is_empty names
            then pass r
            else if contains ns names
            then pass (record r { matched_rule = include_namespace ns })
            else deny not_in_include_list include_namespace_check r)
    listed [] = passes r refl a (inl refl)
    listed (n ∷ names) = elim (Bool-cases (contains ns (n ∷ names))) [
      | inl e ↦
          passes (record r { matched_rule = include_namespace ns }) (rw e refl) a
            (inr (contains-Any ns (n ∷ names) e))
      | inr e ↦
          denies
            (record r {
              allowed = false;
              reason = not_in_include_list;
              matched_rule = include_namespace_check;
            })
            (rw e refl) refl
            (or_absurd (λ empty. cc empty) (λ f. cc (Any-contains ns (n ∷ names) f, e)))
    ]

IsFitting-Decides :
    (config : NamespaceFilterConfig) (meta : ObjectMeta) (r : FilterResult)
    → r.allowed ≡ true
    → Decides (IsFitting config meta) (check_metadata_requirements config meta r)
unfolding check_metadata_requirements
IsFitting-Decides config meta r a =
    elim (Bool-cases (has_all (or_no_labels meta.labels) config.required_labels)) [
      | inr e ↦
          denies (denied missing_required_labels required_labels_check r)
            (rw (check_metadata_requirements, e) refl) refl (λ p. cc (p.0, e))
      | inl e ↦ elim (Bool-cases (has_any (or_no_labels meta.labels) config.forbidden_labels)) [
        | inl f ↦
            denies (denied has_forbidden_labels forbidden_labels_check r)
              (rw (check_metadata_requirements, e, f) refl) refl (λ p. cc (p.1, f))
        | inr f ↦
            elim (Bool-cases
              (has_any (or_no_labels meta.annotations) config.forbidden_annotations)) [
                | inl g ↦
                    denies (denied has_forbidden_annotations forbidden_annotations_check r)
                      (rw (check_metadata_requirements, e, f, g) refl) refl (λ p. cc (p.2, g))
                | inr g ↦ passes r (rw (check_metadata_requirements, e, f, g) refl) a (e, f, g)
              ]
      ]
    ]

pub metadata-Decides :
    (config : NamespaceFilterConfig) (client : Option (String → Option ObjectMeta)) (ns : String)
    (r : FilterResult)
    → r.allowed ≡ true
    → Decides
        ((meta : ObjectMeta) → answer client ns ≡ some meta → IsFitting config meta)
        (apply_metadata_filters config client ns r)
unfolding apply_metadata_filters
metadata-Decides config none ns r a = passes r refl a (λ meta f. cc f)
metadata-Decides config (some get) ns r a = elim (Option-cases (get ns)) [
  | inl missing ↦
      passes (record r { reason = namespace_not_found; matched_rule = namespace_not_found_rule })
        (rw (apply_metadata_filters, missing) refl) a (λ meta f. cc (f, missing))
  | inr (meta, found) ↦ elim (IsFitting-Decides config meta r a) [
    | passes r' e a' fit ↦
        passes r' (rw (apply_metadata_filters, found) e) a'
          (λ other f. let same : meta ≡ other = cc (f, found) in subst (IsFitting config) same fit)
    | denies r' e a' unfit ↦
        denies r' (rw (apply_metadata_filters, found) e) a' (λ all. unfit (all meta found))
  ]
]
