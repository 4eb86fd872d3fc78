-- ===== src/Controllers/NamespaceFilter/Cached.antt =====
-- The cache of pkg/controllers/namespace_filter.go changes no decision, and stays within its size.
use Prim.Native.Nat.{max}
use mathlib.Core.Option
use spotalis.Common.{
  ◌≤◌, suc, ◌≡◌, ◌↔◌, ◌⊎◌, inl, inr, refl, String, true, if◌then◌else◌, Option, some, [], ◌∷◌,
  arith, str_eq, eq_iff, Bool-cases, Option-cases, subst, length, ℤ, pos_part, sym,
}
use spotalis.Common.Time.{Time}
use spotalis.Kube.{ObjectMeta}
use spotalis.Controllers.NamespaceFilter.{RegexpLibrary, FilterResult}
use spotalis.Controllers.NamespaceFilter.Decision.{Compiles, IsAdmitted, perform_filtering_iff}
use spotalis.Controllers.NamespaceFilter.Metrics.{record_cache_hit}
use spotalis.Controllers.NamespaceFilter.Service.{
  Cache, get_cached_result, put_result, set_cached_result, write_tenant, NamespaceFilter,
  filter_now, cached, remember, is_namespace_allowed,
}

get-put :
    (q ns : String) (r : FilterResult) (c : Cache)
    → get_cached_result q (put_result ns r c)
      ≡ (if str_eq ns q then some r else get_cached_result q c)
unfolding get_cached_result put_result
get-put q ns r [] = ground arith
get-put q ns r ((k, old) ∷ c) =
    ground (arith, get-put q ns r c, eq_iff k ns, eq_iff ns q, eq_iff k q)

length-put-le :
    (ns : String) (r : FilterResult) (c : Cache) → length (put_result ns r c) ≤ suc (length c)
unfolding put_result
length-put-le ns r [] = omega arith
length-put-le ns r ((k, old) ∷ c) = ground (arith, length-put-le ns r c)

get-set :
    (size : ℤ) (q ns : String) (r s : FilterResult) (c : Cache)
    → get_cached_result q (set_cached_result size ns r c) ≡ some s
    → ((ns ≡ q) × (s ≡ r)) ⊎ (get_cached_result q c ≡ some s)
unfolding set_cached_result get_cached_result
get-set size q ns r s c h = ground (arith, get-put q ns r c, eq_iff ns q)

length-set-le :
    (size : ℤ) (ns : String) (r : FilterResult) (c : Cache)
    → length (set_cached_result size ns r c) ≤ max 1 (pos_part size)
unfolding set_cached_result
length-set-le size ns r c = ground (arith, length-put-le ns r c)

pub length-write : (ns tenant : String) (c : Cache) → length (write_tenant ns tenant c) ≡ length c
unfolding write_tenant
length-write ns tenant [] = refl
length-write ns tenant ((k, r) ∷ c) = omega (arith, length-write ns tenant c)

-- A write of the tenant keeps each decision.
pub get-write :
    (q ns tenant : String) (s : FilterResult) (c : Cache)
    → get_cached_result q (write_tenant ns tenant c) ≡ some s
    → (r : FilterResult) × (get_cached_result q c ≡ some r) × (s.allowed ≡ r.allowed)
unfolding get_cached_result write_tenant
get-write q ns tenant s [] h = cc h
get-write q ns tenant s ((k, r) ∷ c) h = elim (Bool-cases (str_eq k q)) [
  | inl e ↦ (r, rw (get_cached_result, e) refl, ground (arith, e, h))
  | inr e ↦
      let (r', f, a) = get-write q ns tenant s c (rw (get_cached_result, write_tenant, e) at h) in
      (r', rw (get_cached_result, e) f, a)
]

module _ (lib : RegexpLibrary) (client : Option (String → Option ObjectMeta)) where
  -- The patterns are compiled, and an enabled cache holds the decisions that the client calls for, no
  -- more of them than its size (or one).
  pub record IsValid (nf : NamespaceFilter lib) : Type 0 where
    pub include_compiled : Compiles lib nf.config.include_patterns nf.include_regex
    pub exclude_compiled : Compiles lib nf.config.exclude_patterns nf.exclude_regex
    pub sound :
        nf.config.cache_enabled ≡ true
        → (ns : String) (r : FilterResult) → get_cached_result ns nf.cache ≡ some r
        → (r.allowed ≡ true) ↔ IsAdmitted lib nf.config client ns
    pub bounded :
        nf.config.cache_enabled ≡ true → length nf.cache ≤ max 1 (pos_part nf.config.cache_size)

  -- A returned result is decided by the rules, and the filter is as valid as it was.
  pub record IsDecided (ns : String) (nf nf' : NamespaceFilter lib) (r : FilterResult)
      : Type 0 where
    pub decided : (r.allowed ≡ true) ↔ IsAdmitted lib nf.config client ns
    pub valid : IsValid nf'
    pub same_config : nf'.config ≡ nf.config

  remember-IsValid :
      (now : Time) (ns : String) (r : FilterResult) (nf : NamespaceFilter lib)
      → IsValid nf
      → (r.allowed ≡ true) ↔ IsAdmitted lib nf.config client ns
      → IsValid (remember lib now ns r nf)
  unfolding remember
  remember-IsValid now ns r nf v d = record {
    include_compiled = v.include_compiled;
    exclude_compiled = v.exclude_compiled;
    sound = λ on q s h.
        elim (get-set nf.config.cache_size q ns r s nf.cache (rw (remember, on) at h)) [
          | inl (same, e) ↦
              subst (λ x. (x.allowed ≡ true) ↔ IsAdmitted lib nf.config client q) (sym e)
                (subst (λ x. (r.allowed ≡ true) ↔ IsAdmitted lib nf.config client x) same d)
          | inr old ↦ v.sound on q s old
        ];
    bounded = λ on. rw on (length-set-le nf.config.cache_size ns r nf.cache);
  }

  cached_sound :
      (ns : String) (r : FilterResult) (nf : NamespaceFilter lib)
      → IsValid nf
      → cached lib ns nf ≡ some r
      → (r.allowed ≡ true) ↔ IsAdmitted lib nf.config client ns
  unfolding cached
  cached_sound ns r nf v h = elim (Bool-cases nf.config.cache_enabled) [
    | inl on ↦ v.sound on ns r (rw (cached, on) at h)
    | inr off ↦ cc (rw (cached, off) at h)
  ]

  -- For a valid filter, IsNamespaceAllowed answers, whether from the cache or not, as the rules
  -- decide, without a panic; and it keeps the filter valid, the bound on the cache included.
  pub is_namespace_allowed_lem :
      (now : Time) (ns : String) (nf : NamespaceFilter lib)
      → IsValid nf
      → (nf' : NamespaceFilter lib) × (r : FilterResult) × (is_namespace_allowed lib client now ns
            nf
          ≡ some (nf', r))
        × IsDecided ns nf nf' r
  unfolding is_namespace_allowed filter_now
  is_namespace_allowed_lem now ns nf v = elim (Option-cases (cached lib ns nf)) [
    | inr (r, hit) ↦ (
      record nf { metrics = Option.map record_cache_hit nf.metrics },
      r,
      rw (is_namespace_allowed, hit) refl,
      record {
        decided = cached_sound ns r nf v hit;
        valid = record {
          include_compiled = v.include_compiled;
          exclude_compiled = v.exclude_compiled;
          sound = v.sound;
          bounded = v.bounded;
        };
        same_config = refl;
      },
    )
    | inl miss ↦
        let (r, e, d) =
          perform_filtering_iff lib nf.config nf.include_regex nf.exclude_regex client now ns
            v.include_compiled v.exclude_compiled in
        (
          remember lib now ns r nf,
          r,
          rw (is_namespace_allowed, filter_now, miss, e) refl,
          record { decided = d; valid = remember-IsValid now ns r nf v d; same_config = refl },
        )
  ]
