-- ===== src/Objects.antt =====
-- Objects of the language: reading and writing their properties, and `throw`.
pub mod Heap
pub mod Spread
use vitest_swup.Prelude.{
  ℕ, ◌==◌, nat_eq, string_eq, String, Bool, true, false, Option, none, some, List, [], ◌∷◌,
  if◌then◌else◌,
}
use vitest_swup.Prelude.Dict
use vitest_swup.Prelude.Dict.{Dict}
use vitest_swup.Values.{Value, undefined, null, string, object, VisitRef, Outcome, returns, throws}
use vitest_swup.Visit.{Visit}
use vitest_swup.State.{Swup, Host, M, ◌>>=◌, ◌>>◌, and_then, pure, gets, modify, alloc, update}

-- `{ ...a, ...b }`
unfoldable pub spread : Dict String Value → Dict String Value → Dict String Value
spread a [] = a
spread a ((key, value) ∷ b) = spread (Dict.set key value a) b

-- A property of an object, and the object that a property refers to.
abbrev pub property_of : Option Value → Value
property_of none = undefined
property_of (some value) = value

abbrev pub read : String → Value → Swup → Value
read key (object r) s = property_of (Dict.get key (s.objects r))
read key _ s = undefined

abbrev pub contents_of : Value → Swup → Dict String Value
contents_of (object r) s = s.objects r
contents_of _ s = []

-- `o[key] = value`, of an object.
unfoldable pub set_property : ℕ → String → Value → Swup → Swup
unfolding update
set_property r key value s = record s {
  objects = update s.objects r (Dict.set key value (s.objects r));
}

-- `delete o[key]`
unfoldable pub delete_property : ℕ → String → Swup → Swup
unfolding update
delete_property r key s = record s { objects = update s.objects r (Dict.delete key (s.objects r)) }

-- An assignment to a property of a visit.
unfoldable pub set_visit : VisitRef → (Visit → Visit) → Swup → Swup
unfolding update
set_visit v f s = record s { visits = update s.visits v (f (s.visits v)) }

abbrev pub throw {ℓ} : {A : Type ℓ} → Value → M A
throw error s = (throws error, s)

-- `try { … } catch (error) { … }`, of a computation and what is done with an error.
abbrev pub handled {ℓ} : {A : Type ℓ} → (Value → M A) → Outcome A × Swup → Outcome A × Swup
handled handle (returns a, s) = (returns a, s)
handled handle (throws error, s) = handle error s

abbrev pub or_catch {ℓ} : {A : Type ℓ} → M A → (Value → M A) → M A
or_catch m handle s = handled handle (m s)

-- `throw new Error(message)`
unfoldable pub throw_error {ℓ} : {A : Type ℓ} → String → M A
unfolding alloc
throw_error message = do error ← alloc (("message", string message) ∷ []); throw (object error)

-- The promise of a call of an asynchronous function, which is awaited later or not at all. Its body is
-- taken to have run by then.
abbrev pub attempted {ℓ} : {A : Type ℓ} → Outcome A × Swup → Outcome (Outcome A) × Swup
attempted (outcome, t) = (returns outcome, t)

abbrev pub attempt {ℓ} : {A : Type ℓ} → M A → M (Outcome A)
attempt m s = attempted (m s)

abbrev pub unawaited {ℓ} : {A : Type ℓ} → M A → M (Unit {0})
unawaited m = attempt m >> pure tt

module _ (host : Host) where
  -- `value.key`, where `undefined` and `null` have no properties.
  abbrev pub member : String → Value → M Value
  member key undefined = throw host.type_error
  member key null = throw host.type_error
  member key value = gets (read key value)

  -- `value.key = x`
  abbrev pub assign : String → Value → Value → M (Unit {0})
  assign key x undefined = throw host.type_error
  assign key x null = throw host.type_error
  assign key x (object r) = modify (set_property r key x)
  assign key x value = pure tt

  -- `await promise`
  abbrev pub awaited {ℓ} : {A : Type ℓ} → Outcome A → M A
  awaited outcome s = (outcome, host.pass s)

  -- A handler's use of its argument `visit`.
  abbrev pub given {ℓ} : {A : Type ℓ} → Option VisitRef → (VisitRef → M A) → M A
  given none f = throw host.type_error
  given (some v) f = f v
