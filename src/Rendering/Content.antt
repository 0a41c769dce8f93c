-- ===== src/Rendering/Content.antt =====
-- src/modules/replaceContent.ts: what is replaced, and when all containers have been replaced.
use vitest_swup.Prelude.{
  ℕ, ◌+◌, ◌<◌, ◌==◌, ◌&◌, nat_eq, nat_beq_iff, string_eq, String, Bool, true, false, Option, none,
  some, List, [], ◌∷◌, length, length-append, ◌≡◌, ◌↔◌, refl, sym, ◌∙◌, ap, ◌⊎◌, inl, inr,
  Bool-cases, arith,
}
use vitest_swup.State.{Swup, Host, Forest, log}
use vitest_swup.Document.{subtree, or_else, clone_node}
use vitest_swup.Document.Trees.{count, clone_node-new}
use vitest_swup.Document.Order.{Exchanged, replace_with-Exchanged, shape, shape-clone_node}
use vitest_swup.Elements.Anchor.{is_found}
use vitest_swup.Rendering.{
  put_clone, replace_container, put_back, restore, restore_all, replace_all, or_blank, replace_from,
  successes, key_or_null,
}

-- A container that is in the current document once, and has come with the page: in document order, a new element
-- with its descendants stands where the container with its descendants has stood, and all other elements
-- stay as they are. What is new has the shape, the tags and the attributes of what has come, and none of
-- its elements has been in use before.
pub replace_container-Exchanged :
    (selector : String) (current incoming : ℕ) (document node : Forest) (s : Swup)
    → count current s.document ≡ 1
    → subtree incoming document ≡ some node
    → let (replaced, t) = replace_container selector (some current) (some incoming) document s in
      (replaced ≡ true)
      × (new : Forest) × Exchanged current new s.document t.document
      × (shape new ≡ shape node)
      × ((x : ℕ) → x < s.next → count x new ≡ 0)
unfolding replace_container
replace_container-Exchanged selector current incoming document node s once come =
    let new = (clone_node s.next node).0 in
    (
      refl,
      new,
      rw come (replace_with-Exchanged current new s.document once),
      shape-clone_node s.next node,
      (clone_node-new s.next node).1,
    )

-- One message more.
logged : (message : String) (s : Swup) → length (log message s).console ≡ length s.console + 1
logged message s = length-append s.console (message ∷ [])

-- The console after one container.
container-console :
    (selector : String) (current incoming : Option ℕ) (document : Forest) (s : Swup)
    → let (b, t) = replace_container selector current incoming document s in
      ((b ≡ true) × (t.console ≡ s.console)) ⊎ ((b ≡ false) × (length s.console < length t.console))
unfolding replace_container
container-console selector (some current) (some incoming) document s =
    inl (refl, cloned (subtree incoming document))
  where
    cloned : (o : Option Forest) → (put_clone current o s).console ≡ s.console
    cloned none = refl
    cloned (some node) = refl
container-console selector (some current) none document s =
    inr
      (refl, omega (arith, logged ("[swup] Container missing in incoming document: " & selector) s))
container-console selector none (some incoming) document s =
    inr
      (refl, omega (arith, logged ("[swup] Container missing in current document: " & selector) s))
container-console selector none none document s =
    let first = "[swup] Container missing in current document: " & selector in
    let second = "[swup] Container missing in incoming document: " & selector in
    inr (refl, omega (arith, logged first s, logged second (log first s)))

-- At its turn, each container is found in the current document and in the incoming one.
abbrev pub AllFound : Host → Forest → List String → Swup → Type 0
AllFound host incoming [] s = Unit
AllFound host incoming (selector ∷ selectors) s =
    let current = host.query_selector selector s.document in
    let new = host.query_selector selector incoming in
    (is_found current ≡ true)
    × (is_found new ≡ true)
    × AllFound host incoming selectors (replace_container selector current new incoming s).1

-- All containers are found and replaced and the console is as before, or one is not and there is a warning.
abbrev IsReported : List Bool × Swup → List String → (found : Type 0) → Swup → Type 0
IsReported (bs, t) containers found s =
    (found × (length (successes bs) ≡ length containers) × (t.console ≡ s.console))
    ⊎ (¬ found
        × (length (successes bs) < length containers)
        × (length s.console < length t.console))

-- A container is counted as replaced exactly if it is found in both documents.
container-found :
    (selector : String) (current incoming : Option ℕ) (document : Forest) (s : Swup)
    → ((replace_container selector current incoming document s).0 ≡ true)
      ↔ ((is_found current ≡ true) × (is_found incoming ≡ true))
unfolding replace_container
container-found selector (some current) (some incoming) document s = (λ _. (refl, refl), λ _. refl)
container-found selector (some current) none document s = (λ e. absurd (cc e), λ h. absurd (cc h.1))
container-found selector none incoming document s = (λ e. absurd (cc e), λ h. absurd (cc h.0))

replace_all-IsReported :
    (host : Host) (incoming : Forest) (containers : List String) (s : Swup)
    → IsReported
        (replace_all host incoming containers s)
        containers
        (AllFound host incoming containers s)
        s
unfolding replace_all
replace_all-IsReported host incoming [] s = inl (tt, refl, refl)
replace_all-IsReported host incoming (selector ∷ selectors) s =
    let current = host.query_selector selector s.document in
    let new = host.query_selector selector incoming in
    joined (is_found current ≡ true) (is_found new ≡ true)
      (replace_container selector current new incoming s)
      (container-console selector current new incoming s)
      (container-found selector current new incoming s)
      (λ t. replace_all-IsReported host incoming selectors t)
  where
    joined :
        (here there : Type 0) (x : Bool × Swup)
        → ((x.0 ≡ true) × (x.1.console ≡ s.console))
          ⊎ ((x.0 ≡ false) × (length s.console < length x.1.console))
        → (x.0 ≡ true) ↔ (here × there)
        → ((t : Swup)
            → IsReported
                (replace_all host incoming selectors t)
                selectors
                (AllFound host incoming selectors t)
                t)
        → let (bs, t) = replace_all host incoming selectors x.1 in
          IsReported
            (x.0 ∷ bs, t)
            (selector ∷ selectors)
            (here × there × AllFound host incoming selectors x.1)
            s
    joined here there (true, t) (inl (_, same)) found rest = elim (rest t) [
      | inl (others, all, kept) ↦
          inl (((found.0 refl).0, (found.0 refl).1, others), omega (arith, all), kept ∙ same)
      | inr (missing, fewer, more) ↦
          inr (λ h. missing h.2, omega (arith, fewer), omega (arith, more, ap length same))
    ]
    joined here there (true, t) (inr (e, _)) found rest = absurd (cc e)
    joined here there (false, t) (inl (e, _)) found rest = absurd (cc e)
    joined here there (false, t) (inr (_, warned)) found rest =
        let lost : ¬ (here × there × AllFound host incoming selectors t) =
          λ h. absurd (cc (found.1 (h.0, h.1))) in
        elim (rest t) [
          | inl (others, all, kept) ↦
              inr (lost, omega (arith, all), omega (arith, warned, ap length kept))
          | inr (missing, fewer, more) ↦
              inr (lost, omega (arith, fewer), omega (arith, warned, more))
        ]

put_back-console :
    (existing replacement : ℕ) (o : Option Forest) (s : Swup)
    → (put_back existing replacement o s).console ≡ s.console
put_back-console existing replacement none s = refl
put_back-console existing replacement (some node) s = refl

restore-console :
    (saved : Forest) (existing : ℕ) (o : Option ℕ) (s : Swup)
    → (restore saved existing o s).console ≡ s.console
unfolding restore
restore-console saved existing none s = refl
restore-console saved existing (some replacement) s = elim (Bool-cases (replacement == existing)) [
  | inl e ↦ rw (e, restore) refl
  | inr e ↦
      rw (e, restore)
        (put_back-console existing replacement
          (or_else (subtree existing s.document) (subtree existing saved)) s)
]

restore_all-console :
    (host : Host) (saved : Forest) (elements : List ℕ) (s : Swup)
    → (restore_all host saved elements s).console ≡ s.console
unfolding restore_all
restore_all-console host saved [] s = refl
restore_all-console host saved (existing ∷ elements) s =
    restore_all-console host saved elements _
    ∙ restore-console saved existing
        (host.query_selector
          ("[data-swup-persist=\""
            & key_or_null (host.get_attribute existing "data-swup-persist")
            & "\"]")
          s.document)
        s

-- The instance once the title of the incoming document has been written.
abbrev pub titled : Host → ℕ → Swup → Swup
titled host incoming s = record s {
  browser = record s.browser { title = or_blank (host.title_of incoming) };
}

-- `replaceContent` with an incoming document returns `true` exactly if each container, at its turn, is found in
-- the current document and in the incoming one; and exactly if no warning is written.
pub replace_from-true_iff :
    (host : Host) (incoming : ℕ) (containers : List String) (s : Swup)
    → let (replaced, t) = replace_from host incoming containers s in
      ((replaced ≡ true)
        ↔ AllFound host (host.elements_of incoming) containers (titled host incoming s))
      × ((replaced ≡ true) ↔ (t.console ≡ s.console))
unfolding replace_from
replace_from-true_iff host incoming containers s =
    let s₁ = titled host incoming s in
    let x = replace_all host (host.elements_of incoming) containers s₁ in
    let persisted =
      host.query_selector_all "[data-swup-persist]:not([data-swup-persist=\"\"])" s.document in
    told (AllFound host (host.elements_of incoming) containers s₁) x
      (restore_all host s.document persisted x.1)
      (restore_all-console host s.document persisted x.1)
      (replace_all-IsReported host (host.elements_of incoming) containers s₁)
  where
    told :
        (found : Type 0) (x : List Bool × Swup) (t : Swup)
        → t.console ≡ x.1.console
        → IsReported x containers found s
        → let replaced = length (successes x.0) == length containers in
          ((replaced ≡ true) ↔ found) × ((replaced ≡ true) ↔ (t.console ≡ s.console))
    told found (bs, u) t same (inl (all_found, all, kept)) = (
      (λ _. all_found, λ _. (nat_beq_iff _ _).1 all),
      (λ _. same ∙ kept, λ _. (nat_beq_iff _ _).1 all),
    )
    told found (bs, u) t same (inr (missing, fewer, more)) = (
      (λ e. absurd (omega (arith, fewer, (nat_beq_iff _ _).0 e)), λ h. absurd (missing h)),
      (
        λ e. absurd (omega (arith, fewer, (nat_beq_iff _ _).0 e)),
        λ e. absurd (omega (arith, more, ap length (sym same), ap length e)),
      ),
    )
