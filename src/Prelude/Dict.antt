-- ===== src/Prelude/Dict.antt =====
-- JavaScript's `Map`: an association list in insertion order.
use vitest_swup.Prelude.Tests.{Key, ◌==◌, if◌then◌else◌, Bool-cases, beq_refl}
use vitest_swup.Prelude.Lists.{length}
use Prim.Native.Nat.{◌+◌, ◌≤◌}
use mathlib.Core.Path.{◌≡◌, refl, ◌∙◌, subst}
use mathlib.Core.Logic.{◌↔◌, inl, inr}
use mathlib.Core.Bool.{Bool, true, false}
use mathlib.Core.Option.{Option, none, some, some-injective}
use mathlib.Core.List.{List, [], ◌∷◌, map}
use native.Mathlib.Omega.{arith}

abbrev pub Dict {ℓ κ} : Type ℓ → Type κ → Type (ℓ ⊔ κ)
Dict K V = List (K × V)

module _ {ℓ κ} {K : Type ℓ} {V : Type κ} where
  abbrev pub values : Dict K V → List V
  values = map (λ e. e.1)

module _ {ℓ κ} {K : Type ℓ} {V : Type κ} ⦃e : Key K⦄ where
  unfoldable pub get : K → Dict K V → Option V
  get k [] = none
  get k ((j, v) ∷ m) = if j == k then some v else get k m

  unfoldable pub has : K → Dict K V → Bool
  has k [] = false
  has k ((j, v) ∷ m) = if j == k then true else has k m

  -- An existing key keeps its position.
  unfoldable pub set : K → V → Dict K V → Dict K V
  set k v [] = (k, v) ∷ []
  set k v ((j, w) ∷ m) = if j == k then (j, v) ∷ m else (j, w) ∷ set k v m

  unfoldable pub delete : K → Dict K V → Dict K V
  delete k [] = []
  delete k ((j, v) ∷ m) = let rest = delete k m in if j == k then rest else (j, v) ∷ rest

  -- No key stands twice.
  abbrev pub Distinct : Dict K V → Type 0
  Distinct [] = Unit
  Distinct ((k, v) ∷ m) = (has k m ≡ false) × Distinct m

  pub get-set :
      (k q : K) (v : V) (m : Dict K V) → get q (set k v m) ≡ (if k == q then some v else get q m)
  unfolding get set
  get-set k q v [] = refl
  get-set k q v ((j, w) ∷ m) =
      ground (arith, e.same_iff k q, e.same_iff j k, e.same_iff j q, get-set k q v m)

  pub get-delete :
      (k q : K) (m : Dict K V) → get q (delete k m) ≡ (if k == q then none else get q m)
  unfolding get delete
  get-delete k q [] = ground arith
  get-delete k q ((j, w) ∷ m) =
      ground (arith, e.same_iff k q, e.same_iff j k, e.same_iff j q, get-delete k q m)

  pub has-set :
      (k q : K) (v : V) (m : Dict K V) → has q (set k v m) ≡ (if k == q then true else has q m)
  unfolding has set
  has-set k q v [] = refl
  has-set k q v ((j, w) ∷ m) =
      ground (arith, e.same_iff k q, e.same_iff j k, e.same_iff j q, has-set k q v m)

  pub has-delete :
      (k q : K) (m : Dict K V) → has q (delete k m) ≡ (if k == q then false else has q m)
  unfolding has delete
  has-delete k q [] = ground arith
  has-delete k q ((j, w) ∷ m) =
      ground (arith, e.same_iff k q, e.same_iff j k, e.same_iff j q, has-delete k q m)

  -- A key is there exactly when it has a value.
  pub has-get : (k : K) (m : Dict K V) → (has k m ≡ false) ↔ (get k m ≡ none)
  unfolding has get
  has-get k [] = (λ _. refl, λ _. refl)
  has-get k ((j, w) ∷ m) = elim (Bool-cases (j == k)) [
    | inl p ↦ rw p (λ h. cc, λ h. cc)
    | inr p ↦ rw p (has-get k m)
  ]

  pub set-Distinct : (k : K) (v : V) (m : Dict K V) → Distinct m → Distinct (set k v m)
  unfolding has set
  set-Distinct k v [] h = (refl, tt)
  set-Distinct k v ((j, w) ∷ m) h = elim (Bool-cases (j == k)) [
    | inl p ↦ rw p h
    | inr p ↦ rw p (
      has-set k j v m ∙ ground (arith, h.0, e.same_iff k j, e.same_iff j k),
      set-Distinct k v m h.1,
    )
  ]

  pub delete-Distinct : (k : K) (m : Dict K V) → Distinct m → Distinct (delete k m)
  unfolding delete
  delete-Distinct k [] h = h
  delete-Distinct k ((j, w) ∷ m) h = elim (Bool-cases (j == k)) [
    | inl p ↦ rw p (delete-Distinct k m h.1)
    | inr p ↦ rw p (has-delete k j m ∙ ground (arith, h.0), delete-Distinct k m h.1)
  ]

  pub length-set :
      (k : K) (v : V) (m : Dict K V)
      → length (set k v m) ≡ (if has k m then length m else length m + 1)
  unfolding has set
  length-set k v [] = omega arith
  length-set k v ((j, w) ∷ m) = ground (arith, length-set k v m)

  pub length-delete-le : (k : K) (m : Dict K V) → length (delete k m) ≤ length m
  unfolding delete
  length-delete-le k [] = omega arith
  length-delete-le k ((j, w) ∷ m) = ground (arith, length-delete-le k m)

  -- To delete what is not there changes nothing.
  pub delete_absent : (k : K) (m : Dict K V) → has k m ≡ false → delete k m ≡ m
  unfolding has delete
  delete_absent k [] h = refl
  delete_absent k ((j, w) ∷ m) h = ground (arith, delete_absent k m)

  -- To add a new key and take it away again changes nothing.
  pub delete-set : (k : K) (v : V) (m : Dict K V) → has k m ≡ false → delete k (set k v m) ≡ m
  unfolding has set delete
  delete-set k v [] h = rw (beq_refl k)
  delete-set k v ((j, w) ∷ m) h = ground (arith, delete-set k v m)

  pub get-set_self : (k : K) (v : V) (m : Dict K V) → get k (set k v m) ≡ some v
  get-set_self k v m = get-set k k v m ∙ rw (beq_refl k)

  -- Of two writes at one key the later one stays.
  pub set-set : (k : K) (v w : V) (m : Dict K V) → set k v (set k w m) ≡ set k v m
  unfolding set
  set-set k v w [] = rw (beq_refl k)
  set-set k v w ((j, u) ∷ m) = ground (arith, set-set k v w m)

  -- To write what is there already changes nothing.
  pub set-get : (k : K) (v : V) (m : Dict K V) → get k m ≡ some v → set k v m ≡ m
  unfolding get set
  set-get k v [] h = cc
  set-get k v ((j, u) ∷ m) h = ground (arith, set-get k v m)

  pub has-of_get : (k : K) {v : V} (m : Dict K V) → get k m ≡ some v → has k m ≡ true
  unfolding get has
  has-of_get k [] h = cc
  has-of_get k {v} ((j, u) ∷ m) h = ground (arith, has-of_get k {v = v} m)

-- A predicate on every entry of a map.
abbrev pub Entries {ℓ κ μ} : {K : Type ℓ} {V : Type κ} → (K → V → Type μ) → Dict K V → Type μ
Entries P [] = Unit
Entries P ((k, v) ∷ m) = P k v × Entries P m

module _ {ℓ κ μ} {K : Type ℓ} {V : Type κ} ⦃e : Key K⦄ (P : K → V → Type μ) where
  pub Entries-set : (k : K) (v : V) (m : Dict K V) → P k v → Entries P m → Entries P (set k v m)
  unfolding set
  Entries-set k v [] p h = (p, h)
  Entries-set k v ((j, w) ∷ m) p h = elim (Bool-cases (j == k)) [
    | inl q ↦ rw q (rw ((e.same_iff j k).0 q) p, h.1)
    | inr q ↦ rw q (h.0, Entries-set k v m p h.1)
  ]

  pub Entries-delete : (k : K) (m : Dict K V) → Entries P m → Entries P (delete k m)
  unfolding delete
  Entries-delete k [] h = h
  Entries-delete k ((j, w) ∷ m) h = elim (Bool-cases (j == k)) [
    | inl q ↦ rw q (Entries-delete k m h.1)
    | inr q ↦ rw q (h.0, Entries-delete k m h.1)
  ]

  pub Entries-get : (k : K) {v : V} (m : Dict K V) → get k m ≡ some v → Entries P m → P k v
  unfolding get
  Entries-get k [] g h = cc
  Entries-get k {v} ((j, w) ∷ m) g h = elim (Bool-cases (j == k)) [
    | inl q ↦
        let same : w ≡ v = some-injective _ _ (rw q at g) in
        subst (λ i. P i v) ((e.same_iff j k).0 q) (subst (λ u. P j u) same h.0)
    | inr q ↦ Entries-get k m (rw q at g) h.1
  ]

-- To empty every entry of a map.
module _ {ℓ κ} {K : Type ℓ} {V : Type κ} ⦃e : Key K⦄ (f : K × V → K × V)
    (keep : (p : K × V) → (f p).0 ≡ p.0) where
  pub has-map : (k : K) (m : Dict K V) → has k (map f m) ≡ has k m
  unfolding has
  has-map k [] = refl
  has-map k ((j, v) ∷ m) = rw (keep (j, v), has-map k m)

  pub map-Distinct : (m : Dict K V) → Distinct m → Distinct (map f m)
  map-Distinct [] h = h
  map-Distinct ((j, v) ∷ m) h = (rw (keep (j, v)) (has-map j m ∙ h.0), map-Distinct m h.1)
