-- ===== src/Controllers/NamespaceFilter/Tenants.antt =====
-- IsNamespaceAllowedForTenant of pkg/controllers/namespace_filter.go: its decision, and its write to
-- a result that the cache shares.
use spotalis.Common.{
  ◌≡◌, ◌↔◌, ◌⊎◌, inl, inr, refl, String, true, false, if◌then◌else◌, Option, some, List, arith,
  Bool-cases, Option-cases, subst, sym,
}
use spotalis.Common.Time.{Time}
use spotalis.Kube.{ObjectMeta}
use spotalis.Controllers.NamespaceFilter.{RegexpLibrary, NamespaceFilterConfig, FilterResult}
use spotalis.Controllers.NamespaceFilter.Rules.{contains}
use spotalis.Controllers.NamespaceFilter.Steps.{Any, contains-Any, Any-contains}
use spotalis.Controllers.NamespaceFilter.Decision.{IsAdmitted}
use spotalis.Controllers.NamespaceFilter.Service.{
  write_tenant, NamespaceFilter, is_namespace_allowed_for_tenant, assign_tenant,
  check_tenant_access,
}
use spotalis.Controllers.NamespaceFilter.Cached.{
  IsValid, is_namespace_allowed_lem, get-write, length-write,
}

-- In tenant mode, a tenant that has a list of namespaces is held to it.
pub IsAssigned : NamespaceFilterConfig → String → String → Type 0
IsAssigned config ns tenant =
    config.tenant_mode ≡ true
    → (names : List String) → config.tenant_namespaces tenant ≡ some names
    → Any (λ n. ns ≡ n) names

module _ (lib : RegexpLibrary) (client : Option (String → Option ObjectMeta)) (now : Time)
    (ns tenant : String) where
  access_iff :
      (nf : NamespaceFilter lib)
      → nf.config.tenant_mode ≡ true
      → ((check_tenant_access lib now ns tenant nf).allowed ≡ true) ↔ IsAssigned nf.config ns tenant
  unfolding check_tenant_access IsAssigned
  access_iff nf on = elim (Option-cases (nf.config.tenant_namespaces tenant)) [
    | inl free ↦ (λ a m names e. cc (free, e), λ a. rw (check_tenant_access, free) refl)
    | inr (names, e) ↦ elim (Bool-cases (contains ns names)) [
      | inl found ↦ (
        λ a m other f.
            let same : names ≡ other = cc (e, f) in
            subst (Any (λ n. ns ≡ n)) same (contains-Any ns names found),
        λ a. rw (check_tenant_access, e, found) refl,
      )
      | inr absent ↦ (
        λ a. cc (rw (check_tenant_access, e, absent) at a),
        λ a. cc (Any-contains ns names (a on names e), absent),
      )
    ]
  ]

  write-IsValid :
      (nf : NamespaceFilter lib)
      → IsValid lib client nf
      → IsValid lib client (record nf {
        cache = if nf.config.cache_enabled then write_tenant ns tenant nf.cache else nf.cache;
      })
  write-IsValid nf v = record {
    include_compiled = v.include_compiled;
    exclude_compiled = v.exclude_compiled;
    sound = λ on q s h.
        let (r, e, a) = get-write q ns tenant s nf.cache (rw on at h) in
        subst (λ b. (b ≡ true) ↔ IsAdmitted lib nf.config client q) (sym a) (v.sound on q r e);
    bounded = λ on. rw (on, length-write ns tenant nf.cache) (v.bounded on);
  }

  -- What the tenant's check makes of a decided result.
  IsGranted : NamespaceFilterConfig → NamespaceFilter lib × FilterResult → Type 0
  IsGranted config (nf, r) =
      IsValid lib client nf
      × ((r.allowed ≡ true) ↔ (IsAdmitted lib config client ns × IsAssigned config ns tenant))

  -- The filter after the write to the shared result.
  shared : NamespaceFilter lib → NamespaceFilter lib
  shared nf = record nf {
    cache = if nf.config.cache_enabled then write_tenant ns tenant nf.cache else nf.cache;
  }

  module _ (nf : NamespaceFilter lib) (r : FilterResult) where
    assign_off :
        (r.allowed ≡ false) ⊎ (nf.config.tenant_mode ≡ false)
        → assign_tenant lib now ns tenant (nf, r) ≡ (nf, r)
    unfolding assign_tenant
    assign_off h = ground (arith, h)

    assign_refused :
        r.allowed ≡ true
        → nf.config.tenant_mode ≡ true
        → (check_tenant_access lib now ns tenant nf).allowed ≡ false
        → assign_tenant lib now ns tenant (nf, r) ≡ (nf, check_tenant_access lib now ns tenant nf)
    unfolding assign_tenant
    assign_refused a on n = ground (arith, a, on, n)

    assign_granted :
        r.allowed ≡ true
        → nf.config.tenant_mode ≡ true
        → (check_tenant_access lib now ns tenant nf).allowed ≡ true
        → assign_tenant lib now ns tenant (nf, r) ≡ (shared nf, record r { tenant = tenant })
    unfolding assign_tenant shared
    assign_granted a on n = ground (arith, a, on, n)

    assign-IsGranted :
        IsValid lib client nf
        → (r.allowed ≡ true) ↔ IsAdmitted lib nf.config client ns
        → IsGranted nf.config (assign_tenant lib now ns tenant (nf, r))
    unfolding IsGranted IsAssigned shared
    assign-IsGranted v d = elim (Bool-cases r.allowed) [
      | inr no_access ↦
          subst (IsGranted nf.config) (sym (assign_off (inl no_access)))
            (v, (λ a. cc (a, no_access), λ p. d.1 p.0))
      | inl a ↦ elim (Bool-cases nf.config.tenant_mode) [
        | inr off ↦
            subst (IsGranted nf.config) (sym (assign_off (inr off)))
              (v, (λ e. (d.0 a, λ on. cc (on, off)), λ p. a))
        | inl on ↦ elim (Bool-cases (check_tenant_access lib now ns tenant nf).allowed) [
          | inr refused ↦
              subst (IsGranted nf.config) (sym (assign_refused a on refused))
                (v, (λ e. cc (e, refused), λ p. (access_iff nf on).1 p.1))
          | inl granted ↦
              subst (IsGranted nf.config) (sym (assign_granted a on granted))
                (write-IsValid nf v, (λ e. (d.0 a, (access_iff nf on).0 granted), λ p. a))
        ]
      ]
    ]

  -- For a valid filter, a tenant is allowed into a namespace exactly when the rules admit the
  -- namespace and, in tenant mode, it is among the namespaces of the tenant, where those are listed.
  -- The filter stays valid.
  pub is_namespace_allowed_for_tenant_lem :
      (nf : NamespaceFilter lib)
      → IsValid lib client nf
      → (nf' : NamespaceFilter lib) × (r : FilterResult) × (is_namespace_allowed_for_tenant lib
            client now ns tenant nf
          ≡ some (nf', r))
        × IsValid lib client nf'
        × ((r.allowed ≡ true)
            ↔ (IsAdmitted lib nf.config client ns × IsAssigned nf.config ns tenant))
  unfolding is_namespace_allowed_for_tenant IsGranted
  is_namespace_allowed_for_tenant_lem nf v =
      let (nf', r, e, d) = is_namespace_allowed_lem lib client now ns nf v in
      let (nf'', r') = assign_tenant lib now ns tenant (nf', r) in
      let granted : IsGranted nf.config (assign_tenant lib now ns tenant (nf', r)) =
        subst
          (λ c.
            ((r.allowed ≡ true) ↔ IsAdmitted lib c client ns)
            → IsGranted c (assign_tenant lib now ns tenant (nf', r)))
          d.same_config (assign-IsGranted nf' r d.valid) d.decided in
      (nf'', r', rw (is_namespace_allowed_for_tenant, e) refl, granted.0, granted.1)
