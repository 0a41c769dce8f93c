-- ===== src/ResolveUrl/Laws.antt =====
-- src/modules/resolveUrl.ts: what `resolveUrl` and `isSameResolvedUrl` guarantee.
use vitest_swup.Prelude.{
  String, ◌≡◌, refl, ◌↔◌, ◌≢◌, ◌⊎◌, inl, inr, ◌==◌, string_eq, true, false, Bool-cases,
}
use text.Mathlib.Text.{starts_with}
use text.Mathlib.TextEquality.{eq_iff}
use vitest_swup.Values.{Value, function, string, FunctionRef}
use vitest_swup.State.{Swup, Host, Options}
use vitest_swup.ResolveUrl.{
  Resolution, accepted, rejected, check_string, check_result, check_option, chosen, report,
  resolution, resolved, resolve_url, is_same_resolved_url,
}

-- What a resolution gives is the URL itself, or a local URL.
abbrev IsLocal : String → Type 0
IsLocal result =
    (result ≢ "") × (starts_with result "//" ≡ false) × (starts_with result "http" ≡ false)

abbrev IsSound : Resolution → Type 0
IsSound (accepted result) = IsLocal result
IsSound (rejected warning) = Unit

check_string-IsSound : (result : String) → IsSound (check_string result)
unfolding check_string
check_string-IsSound result = elim (Bool-cases (result == "")) [
  | inl p ↦ rw p tt
  | inr p ↦ elim (Bool-cases (starts_with result "//")) [
    | inl q ↦ rw (p, q) tt
    | inr q ↦ elim (Bool-cases (starts_with result "http")) [
      | inl r ↦ rw (p, q, r) tt
      | inr r ↦ rw (p, q, r) ((λ e. cc (p, (eq_iff result "").1 e)), q, r)
    ]
  ]
]

check_result-IsSound : (v : Value) → IsSound (check_result v)
unfolding check_result
check_result-IsSound (string result) = check_string-IsSound result
check_result-IsSound _ = tt

check_option-IsSound :
    (call : FunctionRef → String → Value) (v : Value) (url : String)
    → IsSound (check_option call v url)
unfolding check_option
check_option-IsSound call (function f) url = check_result-IsSound (call f url)
check_option-IsSound call _ url = tt

chosen-IsLocal :
    (url : String) (r : Resolution) → IsSound r → (chosen url r ≡ url) ⊎ IsLocal (chosen url r)
chosen-IsLocal url (accepted result) h = inr h
chosen-IsLocal url (rejected warning) h = inl refl

report-console :
    (r : Resolution) (s : Swup) → report r s ≡ record s { console = (report r s).console }
report-console (accepted result) s = refl
report-console (rejected warning) s = refl

report-options : (r : Resolution) (s : Swup) → (report r s).options ≡ s.options
report-options (accepted result) s = refl
report-options (rejected warning) s = refl

report-report :
    (r q : Resolution) (s : Swup)
    → report q (report r s) ≡ record s { console = (report q (report r s)).console }
report-report (accepted _) (accepted _) s = refl
report-report (accepted _) (rejected _) s = refl
report-report (rejected _) (accepted _) s = refl
report-report (rejected _) (rejected _) s = refl

module _ (host : Host) where
  -- `resolveUrl` returns `resolved`, and touches nothing but the console.
  pub resolve_url-resolved :
      (url : String) (s : Swup)
      → ((resolve_url host url s).0 ≡ resolved host s.options url)
        × ((resolve_url host url s).1 ≡ record s { console = (resolve_url host url s).1.console })
  unfolding resolve_url resolved
  resolve_url-resolved url s = (refl, report-console (resolution host s.options url) s)

  -- The result is the URL itself, or a URL that is not empty and starts neither with `//` nor with
  -- `http`.
  pub resolved_local :
      (options : Options) (url : String)
      → (resolved host options url ≡ url)
        ⊎ ((resolved host options url ≢ "")
            × (starts_with (resolved host options url) "//" ≡ false)
            × (starts_with (resolved host options url) "http" ≡ false))
  unfolding resolved
  resolved_local options url =
      chosen-IsLocal url (resolution host options url)
        (check_option-IsSound host.resolve_url options.resolve_url url)

  -- The comparison holds exactly when the resolved URLs are equal, and it touches nothing but the
  -- console.
  pub is_same_resolved_url_iff :
      (url1 url2 : String) (s : Swup)
      → (((is_same_resolved_url host url1 url2 s).0 ≡ true)
          ↔ (resolved host s.options url1 ≡ resolved host s.options url2))
        × ((is_same_resolved_url host url1 url2 s).1
            ≡ record s { console = (is_same_resolved_url host url1 url2 s).1.console })
  unfolding is_same_resolved_url resolved
  is_same_resolved_url_iff url1 url2 s =
      let r1 = resolution host s.options url1 in
      let r2 = resolution host (report r1 s).options url2 in
      (
        rw (report-options r1 s)
            (eq_iff (chosen url1 r1) (chosen url2 (resolution host s.options url2))),
        report-report r1 r2 s,
      )
