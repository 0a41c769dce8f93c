-- ===== src/Objects/Heap.antt =====
-- Heaps: what is read from a cell after one has been written.
use vitest_swup.Prelude.{
  ℕ, ◌<◌, arith, String, false, ◌==◌, nat_eq, string_eq, beq_refl, ◌≡◌, refl, ◌∙◌, ap, inl, inr,
  Bool-cases,
}
use vitest_swup.Prelude.Dict
use vitest_swup.Values.{Value, object}
use vitest_swup.State.{Swup, update}
use vitest_swup.Objects.{read, property_of, set_property}

pub update_self {ℓ} : {A : Type ℓ} (h : ℕ → A) (r : ℕ) (a : A) → update h r a r ≡ a
unfolding update
update_self h r a = rw (beq_refl r)

pub update_below {ℓ} : {A : Type ℓ} (h : ℕ → A) (r q : ℕ) (a : A) → q < r → update h r a q ≡ h q
unfolding update
update_below h r q a less = ground arith

pub update_above {ℓ} : {A : Type ℓ} (h : ℕ → A) (r q : ℕ) (a : A) → r < q → update h r a q ≡ h q
unfolding update
update_above h r q a less = ground arith

-- A write that leaves what is read of the cell alone is not seen.
pub update-read {ℓ κ} :
    {A : Type ℓ} {B : Type κ} (g : A → B) (h : ℕ → A) (r : ℕ) (a : A)
    → g a ≡ g (h r)
    → (q : ℕ) → g (update h r a q) ≡ g (h q)
unfolding update
update-read g h r a e q = elim (Bool-cases (r == q)) [
  | inl p ↦ rw p (e ∙ ap (λ i. g (h i)) ((nat_eq.same_iff r q).0 p))
  | inr p ↦ rw p refl
]

-- What is read of all cells changes at the cell that is written.
pub update-map {ℓ κ} :
    {A : Type ℓ} {B : Type κ} (g : A → B) (h : ℕ → A) (r : ℕ) (a : A)
    → (q : ℕ) → g (update h r a q) ≡ update (λ i. g (h i)) r (g a) q
unfolding update
update-map g h r a q = elim (Bool-cases (r == q)) [ inl p ↦ rw p refl | inr p ↦ rw p refl ]

-- A property that is written, and another one.
pub read-set_property :
    (r : ℕ) (key : String) (value : Value) (s : Swup)
    → read key (object r) (set_property r key value s) ≡ value
unfolding set_property update
read-set_property r key value s =
    rw (beq_refl r) (ap property_of (Dict.get-set_self key value (s.objects r)))

pub read-set_property_other :
    (r q : ℕ) (key other : String) (value : Value) (s : Swup)
    → (key == other) ≡ false
    → read other (object q) (set_property r key value s) ≡ read other (object q) s
unfolding set_property
read-set_property_other r q key other value s e =
    let d = s.objects r in
    let same : Dict.get other (Dict.set key value d) ≡ Dict.get other d =
      Dict.get-set key other value d ∙ rw e refl in
    update-read (λ d. property_of (Dict.get other d)) s.objects r (Dict.set key value d)
      (ap property_of same) q
