-- ===== src/Objects/Spread.antt =====
-- Objects that are spread: which properties the result has.
use vitest_swup.Prelude.{
  ◌==◌, string_eq, String, Bool, true, false, Option, none, some, [], ◌∷◌, ◌≡◌, refl, ◌∙◌, ap,
  if◌then◌else◌, subst,
}
use vitest_swup.Prelude.Dict
use vitest_swup.Prelude.Dict.{Dict, Distinct}
use vitest_swup.Values.{Value}
use vitest_swup.Objects.{spread}

-- The second value, unless there is a first.
abbrev pub prefer {ℓ} : {A : Type ℓ} → Option A → Option A → Option A
prefer (some a) o = some a
prefer none o = o

-- A property of `{ ...a, ...b }` is that of `b`, or that of `a` where `b` does not have it.
pub get-spread :
    (q : String) (a b : Dict String Value)
    → Distinct b
    → Dict.get q (spread a b) ≡ prefer (Dict.get q b) (Dict.get q a)
unfolding spread Dict.get
get-spread q a [] h = refl
get-spread q a ((key, value) ∷ b) h =
    get-spread q (Dict.set key value a) b h.1
    ∙ ap (prefer (Dict.get q b)) (Dict.get-set key q value a)
    ∙ chosen (key == q) refl
  where
    chosen :
        (c : Bool)
        → (key == q) ≡ c
        → prefer (Dict.get q b) (if c then some value else Dict.get q a)
          ≡ prefer (if c then some value else Dict.get q b) (Dict.get q a)
    chosen false e = refl
    chosen true e =
        let absent : Dict.get q b ≡ none =
          (Dict.has-get q b).0
            (subst (λ i. Dict.has i b ≡ false) ((string_eq.same_iff key q).0 e) h.0) in
        rw absent refl
