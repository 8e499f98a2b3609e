-- ===== src/Api/Routes/Unique.antt =====
-- No request fits two routes.
use mathlib.Core.List.{Memᴰ}
use carbmq_core.Base.{
  String, Bool, true, false, ◌&&◌, List, [], ◌∷◌, Option, none, some, if◌then◌else◌, ◌≡◌, ◌⊎◌, inl,
  inr, refl, arith, sym, ◌∙◌, subst, Bool-cases,
}
use carbmq_core.Api.Routes.Overlap.{overlap, Fits, Fits-overlap, share, admits-share}
use carbmq_core.Api.Routes.{
  Endpoint, Route, routes, fits, admits, dispatch, on_fit, Dispatched, to_endpoint,
  method_not_allowed, not_found,
}

-- whether no request fits the route and one of the others
clear : Route → List Route → Bool
clear r [] = true
clear r (q ∷ qs) =
    let rest = clear r qs in if share r q && overlap r.pattern q.pattern then false else rest

unfoldable apart : List Route → Bool
unfolding clear
apart [] = true
apart (r ∷ rs) = clear r rs && apart rs

-- A request for a route.
abbrev Takes : Route → (method : String) → (path : List String) → Type 0
Takes r method path = (admits r method ≡ true) × Fits r.pattern path

clear_cons :
    (r q : Route) (qs : List Route)
    → clear r (q ∷ qs) ≡ true
    → ((share r q && overlap r.pattern q.pattern) ≡ false) × (clear r qs ≡ true)
unfolding clear
clear_cons r q qs h = elim (Bool-cases (share r q && overlap r.pattern q.pattern)) [
  | inl both ↦ ground (arith, both, h)
  | inr apart ↦ (apart, ground (arith, apart, h))
]

-- No request for the route is one for another.
clear_lem :
    (r : Route) (qs : List Route) (method : String) (path : List String) {q : Route}
    → clear r qs ≡ true
    → Memᴰ q qs
    → Takes r method path
    → Takes q method path
    → ◌≡◌ {A = Bool} true false
clear_lem r [] method path free listed h k = elim listed [ ]
clear_lem r (x ∷ qs) method path {q} free listed h k = elim listed [
  | Memᴰ.tail more ↦ clear_lem r qs method path (clear_cons r x qs free).1 more h k
  | Memᴰ.head same ↦
      let kx = subst (λ y. Takes y method path) same k in
      let shared = admits-share r x method h.0 kx.0 in
      let meets = Fits-overlap r.pattern x.pattern path h.1 kx.1 in
      let both : (share r x && overlap r.pattern x.pattern) ≡ true = rw (shared, meets) refl in
      sym both ∙ (clear_cons r x qs free).0
]

on_fit_source :
    (r : Route) (method : String) (f : Option (List String)) (d : Dispatched) (e : Endpoint)
    (vs : List String)
    → on_fit r method f d ≡ to_endpoint e vs
    → (d ≡ to_endpoint e vs) ⊎ ((admits r method ≡ true) × ((v : List String) × (f ≡ some v)))
unfolding on_fit
on_fit_source r method none d e vs h = inl h
on_fit_source r method (some v) (to_endpoint e' vs') e vs h = inl h
on_fit_source r method (some v) method_not_allowed e vs h = elim (Bool-cases (admits r method)) [
  | inl admitted ↦ inr (admitted, (v, refl))
  | inr refuses ↦
      let stops : method_not_allowed ≡ on_fit r method (some v) method_not_allowed =
        rw (on_fit, refuses) refl in
      let never = stops ∙ h in inl cc
]
on_fit_source r method (some v) not_found e vs h = elim (Bool-cases (admits r method)) [
  | inl admitted ↦ inr (admitted, (v, refl))
  | inr refuses ↦
      let stops : method_not_allowed ≡ on_fit r method (some v) not_found =
        rw (on_fit, refuses) refl in
      let never = stops ∙ h in inl cc
]

-- a later route is preferred
on_fit_later :
    (r : Route) (method : String) (f : Option (List String)) (e : Endpoint) (vs : List String)
    → on_fit r method f (to_endpoint e vs) ≡ to_endpoint e vs
unfolding on_fit
on_fit_later r method none e vs = refl
on_fit_later r method (some v) e vs = refl

on_fit_own :
    (r : Route) (method : String) (values : List String) (d : Dispatched)
    → admits r method ≡ true
    → ((e : Endpoint) (vs : List String) → d ≡ to_endpoint e vs → ◌≡◌ {A = Bool} true false)
    → on_fit r method (some values) d ≡ to_endpoint r.endpoint values
unfolding on_fit
on_fit_own r method values (to_endpoint e vs) h alone = let never = alone e vs refl in cc
on_fit_own r method values method_not_allowed h alone = rw h refl
on_fit_own r method values not_found h alone = rw h refl

-- A request that is dispatched is one for some route.
dispatch_source :
    (rs : List Route) (method : String) (path : List String) (e : Endpoint) (vs : List String)
    → dispatch rs method path ≡ to_endpoint e vs
    → (q : Route) × Memᴰ q rs × Takes q method path
unfolding dispatch
dispatch_source [] method path e vs h = ground (arith, h)
dispatch_source (r ∷ rs) method path e vs h =
    elim (on_fit_source r method (fits r.pattern path) (dispatch rs method path) e vs h) [
      | inl later ↦
          let (q, listed, takes) = dispatch_source rs method path e vs later in
          (q, Memᴰ.tail listed, takes)
      | inr (admitted, fit) ↦ (r, Memᴰ.head refl, (admitted, fit))
    ]

dispatch_lem :
    (rs : List Route) (method : String) (path values : List String) {r : Route}
    → apart rs ≡ true
    → Memᴰ r rs
    → admits r method ≡ true
    → fits r.pattern path ≡ some values
    → dispatch rs method path ≡ to_endpoint r.endpoint values
unfolding dispatch apart
dispatch_lem [] method path values free listed h k = elim listed [ ]
dispatch_lem (x ∷ rs) method path values {r} free listed h k =
    let split : (clear x rs ≡ true) × (apart rs ≡ true) = ground (arith, free) in
    elim listed [
      | Memᴰ.tail more ↦
          let later = dispatch_lem rs method path values split.1 more h k in
          rw (dispatch, later) (on_fit_later x method (fits x.pattern path) r.endpoint values)
      | Memᴰ.head same ↦
          let own = subst (λ y. admits y method ≡ true) same h in
          let fit = subst (λ y. fits y.pattern path ≡ some values) same k in
          let alone : (e : Endpoint) (vs : List String)
              → dispatch rs method path ≡ to_endpoint e vs
              → ◌≡◌ {A = Bool} true false =
            λ e vs d.
              (let (q, among, takes) = dispatch_source rs method path e vs d in
                clear_lem x rs method path split.0 among (own, (values, fit)) takes) in
          subst (λ y. dispatch (x ∷ rs) method path ≡ to_endpoint y.endpoint values) (sym same)
            (rw (dispatch, fit) (on_fit_own x method values (dispatch rs method path) own alone))
    ]

routes-apart : apart routes ≡ true
unfolding apart routes clear share overlap
routes-apart = refl

-- Every request that one of the routes admits, and whose path fits its pattern, goes to that route's
-- endpoint, with the values of the path in place of the wildcards: no other route takes it.
pub dispatch-routes :
    (method : String) (path values : List String) (r : Route)
    → Memᴰ r routes
    → admits r method ≡ true
    → fits r.pattern path ≡ some values
    → dispatch routes method path ≡ to_endpoint r.endpoint values
dispatch-routes method path values r listed h k =
    dispatch_lem routes method path values routes-apart listed h k
