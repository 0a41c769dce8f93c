-- ===== src/Instance/Frame.antt =====
-- src/Swup.ts, src/modules/scrollToContent.ts and src/helpers/history.ts: scrolling and the records of the
-- history do not touch the visits.
use vitest_swup.Prelude.{
  ℕ, ◌==◌, nat_eq, string_eq, String, Bool, true, false, not, ◌&&◌, Option, none, some, [], ◌≡◌,
  inl, inr, Bool-cases,
}
use vitest_swup.Prelude.Dict.{Dict}
use vitest_swup.Values.{
  Value, undefined, null, boolean, number, string, visit, object, node, function, FunctionRef,
  VisitRef, Outcome, returns, throws, is_truthy,
}
use vitest_swup.State.{Swup, Host, Callee, Location, Functions, alloc}
use vitest_swup.Objects.{member, contents_of}
use vitest_swup.Hooks.Run.{call_sync}
use vitest_swup.Hooks.Run.Default.{Closure, with_closure}
use vitest_swup.Hooks.Run.Frame.{IsKept, Keeps, and_then-Keeps, call-Keeps}
use vitest_swup.Elements.{get_anchor_element}
use vitest_swup.Scroll.{
  scroll_into_view, scroll_anchor, scroll_top, try_anchor, try_top, scroll_to_content,
  scroll_target,
}
use vitest_swup.History.{accept, replace_entry, replace_state, update_history_record}
use vitest_swup.Navigation.{Navigation}
use vitest_swup.Performing.Refinement.{view}
use vitest_swup.Instance.{scroll_for}

-- The visits are at a given point.
abbrev pub SeenAs : Navigation → Swup → Type 0
SeenAs n t = view t ≡ n

-- A closure of the library's that keeps a property can stand beside the functions of users.
pub with_closure-IsKept :
    (host : Host) (P : Swup → Type 0) (f : FunctionRef) (closure : Closure)
    → IsKept host P
    → ((v : Option VisitRef) (args : Value) → Keeps P (closure v args))
    → IsKept (with_closure f closure host) P
with_closure-IsKept host P f closure kept keeps = record {
  framed = kept.framed;
  invoke = invoke;
  settle = kept.settle;
  pass = kept.pass;
  dispatch = kept.dispatch;
}
  where
    invoke :
        (g : FunctionRef) (v : Option VisitRef) (args : Value) (d : Option Callee) (s : Swup)
        → P s
        → P ((with_closure f closure host).invoke g v args d s).1
    invoke g v args d s p = elim (Bool-cases (f == g)) [
      | inl e ↦ rw e (keeps v args s p)
      | inr e ↦ rw e (kept.invoke g v args d s p)
    ]

module _ (host : Host) (n : Navigation) where
  member-Keeps : (key : String) (value : Value) → Keeps (SeenAs n) (member host key value)
  member-Keeps key undefined s p = p
  member-Keeps key null s p = p
  member-Keeps key (boolean b) s p = p
  member-Keeps key (number m) s p = p
  member-Keeps key (string text) s p = p
  member-Keeps key (visit v) s p = p
  member-Keeps key (object r) s p = p
  member-Keeps key (node e) s p = p
  member-Keeps key (function f) s p = p

  anchor-Keeps : (hash : Value) → Keeps (SeenAs n) (get_anchor_element host hash)
  unfolding get_anchor_element
  anchor-Keeps (string text) s p = p
  anchor-Keeps undefined s p = p
  anchor-Keeps null s p = p
  anchor-Keeps (boolean true) s p = p
  anchor-Keeps (boolean false) s p = p
  anchor-Keeps (number m) s p = elim (Bool-cases (m == 0)) [
    | inl e ↦ rw (e, get_anchor_element) p
    | inr e ↦ rw (e, get_anchor_element) p
  ]
  anchor-Keeps (visit v) s p = p
  anchor-Keeps (object r) s p = p
  anchor-Keeps (node e) s p = p
  anchor-Keeps (function f) s p = p

  into_view-Keeps :
      (o : Option ℕ) (content : Dict String Value) → Keeps (SeenAs n) (scroll_into_view o content)
  into_view-Keeps none content s p = p
  into_view-Keeps (some el) content s p = p

  scroll_anchor-Keeps :
      (v : Option VisitRef) (args : Value) → Keeps (SeenAs n) (scroll_anchor host v args)
  unfolding scroll_anchor
  scroll_anchor-Keeps v args s p =
      and_then-Keeps (SeenAs n) (member host "hash" args s) _ (member-Keeps "hash" args s p)
        (λ hash t q.
          and_then-Keeps (SeenAs n) (member host "options" args t) _
            (member-Keeps "options" args t q)
            (λ options u o.
              and_then-Keeps (SeenAs n) (get_anchor_element host hash u) _ (anchor-Keeps hash u o)
                (λ el w m. into_view-Keeps el (contents_of options w) w m)))

  scroll_top-Keeps :
      (v : Option VisitRef) (args : Value) → Keeps (SeenAs n) (scroll_top host v args)
  unfolding scroll_top
  scroll_top-Keeps v args s p =
      and_then-Keeps (SeenAs n) (member host "options" args s) _ (member-Keeps "options" args s p)
        (λ options t q. q)

  module _ (kept : IsKept host (SeenAs n)) where
    -- A call of a hook, with a closure that keeps the visits where they are.
    closure-Keeps :
        (f : FunctionRef) (closure : Closure) (hook : String) (a b : Value)
        → ((v : Option VisitRef) (args : Value) → Keeps (SeenAs n) (closure v args))
        → Keeps (SeenAs n) (call_sync (with_closure f closure host) hook a b (function f))
    closure-Keeps f closure hook a b keeps =
        (call-Keeps (with_closure f closure host) (SeenAs n)
          (with_closure-IsKept host (SeenAs n) f closure kept keeps) hook a b (function f)).0

    try_anchor-Keeps :
        (f : FunctionRef) (v : VisitRef) (target : Option String) (options : ℕ)
        → Keeps (SeenAs n) (try_anchor host f v target options)
    unfolding try_anchor alloc
    try_anchor-Keeps f v none options s p = p
    try_anchor-Keeps f v (some target) options s p = elim (Bool-cases (target == "")) [
      | inl e ↦ rw (e, try_anchor) p
      | inr e ↦
          rw (e, try_anchor)
            (closure-Keeps f (scroll_anchor host) "scroll:anchor" (visit v) (object s.next)
              scroll_anchor-Keeps _ p)
    ]

    try_top-Keeps :
        (g : FunctionRef) (v : VisitRef) (reset : Bool) (scrolled : Value) (options : ℕ)
        → Keeps (SeenAs n) (try_top host g v reset scrolled options)
    unfolding try_top alloc
    try_top-Keeps g v reset scrolled options s p =
        elim (Bool-cases (reset && not (is_truthy scrolled))) [
          | inl e ↦
              rw (e, try_top)
                (closure-Keeps g (scroll_top host) "scroll:top" (visit v) (object s.next)
                  scroll_top-Keeps _ p)
          | inr e ↦ rw (e, try_top) p
        ]

    scroll_to_content-Keeps :
        (f g : FunctionRef) (v : VisitRef) → Keeps (SeenAs n) (scroll_to_content host f g v)
    unfolding scroll_to_content alloc
    scroll_to_content-Keeps f g v s p =
        and_then-Keeps (SeenAs n) (try_anchor host f v (scroll_target (s.visits v)) s.next _) _
          (try_anchor-Keeps f v (scroll_target (s.visits v)) s.next _ p)
          (λ scrolled t q. try_top-Keeps g v (s.visits v).scroll.reset scrolled s.next t q)

    update_history_record-Keeps :
        (url : String) (extra : Dict String Value)
        → Keeps (SeenAs n) (update_history_record host url extra)
    unfolding update_history_record replace_state
    update_history_record-Keeps url extra s p = accepted _ (host.parse_url _)
      where
        accepted :
            (state : Dict String Value) (o : Outcome Location)
            → SeenAs n (accept host replace_entry state o s).1
        accepted state (throws error) = p
        accepted state (returns location) =
            elim (Bool-cases (location.origin == s.browser.entry.location.origin)) [
              | inl e ↦ rw e p
              | inr e ↦ rw e p
            ]

    pub scroll_for-Keeps :
        (f : Functions) (v : VisitRef) (url : String) (w : Option VisitRef) (args : Value)
        → Keeps (SeenAs n) (scroll_for host f v url w args)
    unfolding scroll_for
    scroll_for-Keeps f v url w args s p =
        and_then-Keeps (SeenAs n) (update_history_record host url [] s) _
          (update_history_record-Keeps url [] s p)
          (λ _ t q.
            and_then-Keeps (SeenAs n) (scroll_to_content host f.scroll_anchor f.scroll_top v t) _
              (scroll_to_content-Keeps f.scroll_anchor f.scroll_top v t q) (λ _ u o. o))

    pub link_anchor-Keeps :
        (f : Functions) (v : VisitRef) (url : String) (args : Value)
        → Keeps (SeenAs n) (
            call_sync
              (with_closure f.link_anchor (scroll_for host f v url) host)
              "link:anchor"
              (visit v)
              args
              (function f.link_anchor))
    link_anchor-Keeps f v url args =
        closure-Keeps f.link_anchor (scroll_for host f v url) "link:anchor" (visit v) args
          (scroll_for-Keeps f v url)
