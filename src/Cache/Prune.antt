-- ===== src/Cache/Prune.antt =====
-- src/modules/Cache.ts: which pages `prune` takes away, and what `clear` leaves.
use vitest_swup.Prelude.{
  ℕ, ◌≡◌, refl, ◌∙◌, sym, ap, subst, beq_refl, beq_ne, ◌≢◌, String, Bool, true, false, Option, none,
  some, List, [], ◌∷◌, ◌==◌, map, ◌⊎◌, inl, inr, Bool-cases, Option-cases, if◌then◌else◌, string_eq,
  nat_eq, arith, ◌||◌,
}
use text.Mathlib.TextEquality.{eq_iff}
use vitest_swup.Prelude.Dict
use vitest_swup.Prelude.Dict.{Dict, Entries, Distinct}
use vitest_swup.Values.{undefined, returns}
use vitest_swup.State.{Swup, Host, Options}
use vitest_swup.Hooks.Run.Frame.{IsKept, call-Keeps}
use vitest_swup.Cache
use vitest_swup.Cache.{prune_found, prune_loop}
use vitest_swup.Cache.Pages.{content_of, page_at, cache_key, resolve-key, page_at-delete}

-- What is left of a page under a predicate that says which pages go.
abbrev pub kept :
    (String → Cache.CacheData → Bool) → String → Option Cache.CacheData → Option Cache.CacheData
kept predicate key none = none
kept predicate key (some content) = if predicate key content then none else some content

-- Whether a key is in a list.
abbrev pub among : String → List String → Bool
among q [] = false
among q (key ∷ keys) = key == q || among q keys

kept-kept :
    (predicate : String → Cache.CacheData → Bool) (key : String) (o : Option Cache.CacheData)
    → kept predicate key (kept predicate key o) ≡ kept predicate key o
kept-kept predicate key none = refl
kept-kept predicate key (some content) = elim (Bool-cases (predicate key content)) [
  | inl p ↦ rw p
  | inr p ↦ rw (p, p)
]

-- All keys resolve to themselves.
abbrev pub IsFixed : Host → Options → List String → Type 0
IsFixed host options [] = Unit
IsFixed host options (key ∷ keys) =
    (cache_key host options key ≡ returns key) × IsFixed host options keys

-- To decide about one key.
at_key :
    (predicate : String → Cache.CacheData → Bool) (key : String) (s t : Swup)
    → page_at key t ≡ kept predicate key (page_at key s)
    → ((q : String) → (key == q) ≡ false → page_at q t ≡ page_at q s)
    → (q : String)
    → page_at q t ≡ (if key == q then kept predicate q (page_at q s) else page_at q s)
at_key predicate key s t here there q = elim (Bool-cases (key == q)) [
  | inl p ↦
      rw p (subst (λ k. page_at k t ≡ kept predicate k (page_at k s)) ((eq_iff key q).0 p) here)
  | inr p ↦ rw p (there q p)
]

-- Every page whose key is in the list is decided about, the first key first.
decide_again :
    (predicate : String → Cache.CacheData → Bool) (q : String) (here later : Bool)
    → (o : Option Cache.CacheData)
    → (if later
        then kept predicate q (if here then kept predicate q o else o)
        else (if here then kept predicate q o else o))
      ≡ (if here || later then kept predicate q o else o)
decide_again predicate q true true o = kept-kept predicate q o
decide_again predicate q true false o = refl
decide_again predicate q false true o = refl
decide_again predicate q false false o = refl

module _ (host : Host) (predicate : String → Cache.CacheData → Bool) where
  -- One round: it returns, and decides about the page under the key.
  prune_round :
      (key : String) (s : Swup)
      → cache_key host s.options key ≡ returns key
      → (t : Swup) × (prune_found host predicate key (Dict.get key s.pages) s ≡ (returns tt, t))
        × (t.options ≡ s.options)
        × ((q : String)
            → page_at q t ≡ (if key == q then kept predicate q (page_at q s) else page_at q s))
  unfolding prune_found
  prune_round key s fixed = elim (Option-cases (Dict.get key s.pages)) [
    | inl e ↦ (s, rw e refl, refl, at_key predicate key s s (rw e refl) (λ q h. refl))
    | inr (page, e) ↦ elim (Bool-cases (predicate key (s.objects page))) [
      | inl p ↦ (
        (Cache.delete host key s).1,
        rw (e, p, prune_found) (rw (resolve-key host key s, fixed) refl),
        rw (resolve-key host key s, fixed) refl,
        at_key predicate key s (Cache.delete host key s).1
            (page_at-delete host key key s fixed ∙ rw (beq_refl key) (rw (e, p) refl))
            (λ q h. page_at-delete host key q s fixed ∙ rw h refl),
      )
      | inr p ↦ (
        s,
        rw (e, p, prune_found) refl,
        refl,
        at_key predicate key s s (rw e (rw p refl)) (λ q h. refl),
      )
    ]
  ]

  page_at-prune_loop :
      (keys : List String) (s : Swup) (options : Options)
      → s.options ≡ options
      → IsFixed host options keys
      → (t : Swup) × (prune_loop host predicate keys s ≡ (returns tt, t))
        × ((q : String)
            → page_at q t ≡ (if among q keys then kept predicate q (page_at q s) else page_at q s))
  unfolding prune_loop
  page_at-prune_loop [] s options same fixed = (s, refl, λ q. refl)
  page_at-prune_loop (key ∷ keys) s options same fixed =
      let (t, done, options', decided) = prune_round key s (rw same fixed.0) in
      let (u, rest, decided') = page_at-prune_loop keys t options (options' ∙ same) fixed.1 in
      (
        u,
        rw (done, prune_loop) rest,
        λ q.
            decided' q
            ∙ rw (decided q) (decide_again predicate q (key == q) (among q keys) (page_at q s)),
      )

among-keys :
    (q : String) (objects : ℕ → Cache.CacheData) (m : Dict String ℕ)
    → (among q (map (λ e. e.0) m) ≡ true) ⊎ (content_of objects (Dict.get q m) ≡ none)
unfolding Dict.get
among-keys q objects [] = inr refl
among-keys q objects ((key, page) ∷ m) = elim (Bool-cases (key == q)) [
  | inl p ↦ inl (rw p refl)
  | inr p ↦ rw p (among-keys q objects m)
]

-- A key outside the list has no page.
kept-among :
    (predicate : String → Cache.CacheData → Bool) (q : String) (objects : ℕ → Cache.CacheData)
    → (m : Dict String ℕ)
    → (if among q (map (λ e. e.0) m)
        then kept predicate q (content_of objects (Dict.get q m))
        else content_of objects (Dict.get q m))
      ≡ kept predicate q (content_of objects (Dict.get q m))
kept-among predicate q objects m =
    decide (among q (map (λ e. e.0) m)) (content_of objects (Dict.get q m)) (among-keys q objects m)
  where
    decide :
        (b : Bool) (o : Option Cache.CacheData)
        → (b ≡ true) ⊎ (o ≡ none)
        → (if b then kept predicate q o else o) ≡ kept predicate q o
    decide true o h = refl
    decide false none h = refl
    decide false (some a) (inl h) = ground arith
    decide false (some a) (inr h) = ground arith

module _ (host : Host) (predicate : String → Cache.CacheData → Bool) (s : Swup) where
  -- Where the keys of the cache resolve to themselves, `prune` returns, takes away the pages for
  -- which the predicate holds, and leaves all others as they are.
  pub prune-kept :
      IsFixed host s.options (map (λ e. e.0) s.pages)
      → (t : Swup) × (Cache.prune host predicate s ≡ (returns tt, t))
        × ((q : String) → page_at q t ≡ kept predicate q (page_at q s))
  unfolding Cache.prune
  prune-kept fixed =
      let keys = map (λ e. e.0) s.pages in
      let (t, done, decided) = page_at-prune_loop host predicate keys s s.options refl fixed in
      (t, done, λ q. decided q ∙ kept-among predicate q s.objects s.pages)

  missed :
      (key other : String) (page : ℕ)
      → Dict.get key s.pages ≡ some page
      → predicate key (s.objects page) ≡ true
      → cache_key host s.options key ≡ returns other
      → other ≢ key
      → page_at key (prune_loop host predicate (key ∷ []) s).1 ≡ some (s.objects page)
  unfolding prune_loop prune_found
  missed key other page found goes moved apart =
      rw (found, goes, prune_found)
        (rw (resolve-key host key s, moved, Cache.delete)
          (rw (Dict.get-delete other key s.pages, beq_ne other key apart, found) refl))

  -- Where the one key of the cache resolves to another key, `prune` leaves the page, though the
  -- predicate holds of it.
  pub prune_misses :
      (key other : String) (page : ℕ)
      → s.pages ≡ (key, page) ∷ []
      → predicate key (s.objects page) ≡ true
      → cache_key host s.options key ≡ returns other
      → other ≢ key
      → page_at key (Cache.prune host predicate s).1 ≡ some (s.objects page)
  unfolding Cache.prune Dict.set
  prune_misses key other page one goes moved apart =
      let found = ap (Dict.get key) one ∙ Dict.get-set key key page [] ∙ rw (beq_refl key) refl in
      subst (λ keys. page_at key (prune_loop host predicate keys s).1 ≡ some (s.objects page))
        (sym (ap (map (λ e. e.0)) one)) (missed key other page found goes moved apart)

-- After `clear` the cache is empty and its size is 0, provided that the functions passed in by
-- users, their promises, other tasks and the listeners for DOM events leave an empty cache empty.
pub clear-empty :
    (host : Host) (s : Swup)
    → IsKept host (λ t. t.pages ≡ [])
    → ((Cache.clear host s).1.pages ≡ []) × (Cache.size (Cache.clear host s).1 ≡ 0)
unfolding Cache.clear Cache.size
clear-empty host s k =
    let empty =
      (call-Keeps host (λ t. t.pages ≡ []) k "cache:clear" undefined undefined undefined).0
        (record s { pages = [] }) refl in
    (empty, rw empty refl)
