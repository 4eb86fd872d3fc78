-- ===== src/Common/Assoc.antt =====
-- Go's maps with string keys that are iterated over, as lists of their entries; a key has one entry.
use spotalis.Common.{
  String, ◌≡◌, refl, if◌then◌else◌, Option, none, some, List, [], ◌∷◌, str_eq, eq_iff, Bool-cases,
  inl, inr, arith, sym, subst, true, false,
}

abbrev pub Assoc {ℓ} : Type ℓ → Type ℓ
Assoc A = List (String × A)

-- A key equal to one of two different keys is not the other.
differ : (k j key : String) → str_eq j key ≡ false → str_eq k j ≡ true → str_eq k key ≡ false
differ k j key other same = subst (λ x. str_eq x key ≡ false) (sym ((eq_iff k j).0 same)) other

module _ {ℓ} {A : Type ℓ} where
  -- `m[k]`
  unfoldable pub get : String → Assoc A → Option A
  get k [] = none
  get k ((j, a) ∷ m) = if str_eq k j then some a else get k m

  -- `m[key] = a`
  unfoldable pub set : String → A → Assoc A → Assoc A
  set key a [] = (key, a) ∷ []
  set key a ((j, b) ∷ m) =
      let rest = set key a m in if str_eq j key then (j, a) ∷ m else (j, b) ∷ rest

  -- `delete(m, key)`
  unfoldable pub delete : String → Assoc A → Assoc A
  delete key [] = []
  delete key ((j, b) ∷ m) = let rest = delete key m in if str_eq j key then rest else (j, b) ∷ rest

  pub get-set :
      (k key : String) (a : A) (m : Assoc A)
      → get k (set key a m) ≡ (if str_eq k key then some a else get k m)
  unfolding get set
  get-set k key a [] = refl
  get-set k key a ((j, b) ∷ m) = elim (Bool-cases (str_eq j key)) [
    | inl same ↦ let e : j ≡ key = (eq_iff j key).0 same in rw (same, e) (ground arith)
    | inr other ↦ rw other (ground (arith, get-set k key a m, differ k j key other))
  ]

  pub get-delete :
      (k key : String) (m : Assoc A)
      → get k (delete key m) ≡ (if str_eq k key then none else get k m)
  unfolding get delete
  get-delete k key [] = ground arith
  get-delete k key ((j, b) ∷ m) = elim (Bool-cases (str_eq j key)) [
    | inl same ↦
        let e : j ≡ key = (eq_iff j key).0 same in rw (same, get-delete k key m, e) (ground arith)
    | inr other ↦ rw other (ground (arith, get-delete k key m, differ k j key other))
  ]
