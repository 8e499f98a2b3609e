-- ===== src/Api/Routes/Overlap.antt =====
-- Whether a request can fit two patterns or two methods.
use carbmq_core.Base.{
  String, Bool, true, false, ◌&&◌, ◌||◌, List, [], ◌∷◌, some, ◌==◌, eq_iff, ◌≡◌, inl, inr, refl,
  arith, sym, ◌∙◌, Bool-cases, Option-cases,
}
use carbmq_core.Api.Routes.{Segment, literal, wildcard, Route, fits, captured, admits}

-- whether some path fits both patterns
unfoldable pub overlap : (p q : List Segment) → Bool
overlap [] [] = true
overlap [] (b ∷ q) = false
overlap (a ∷ p) [] = false
overlap (literal a ∷ p) (literal b ∷ q) = a == b && overlap p q
overlap (literal a ∷ p) (wildcard ∷ q) = overlap p q
overlap (wildcard ∷ p) (b ∷ q) = overlap p q

-- a path that fits a pattern, with the values of the wildcards
abbrev pub Fits : List Segment → List String → Type 0
Fits p path = (values : List String) × (fits p path ≡ some values)

Fits-literal :
    (a s : String) (p : List Segment) (path : List String)
    → Fits (literal a ∷ p) (s ∷ path)
    → (a ≡ s) × Fits p path
unfolding fits
Fits-literal a s p path (v, h) = elim (Bool-cases (a == s)) [
  | inr other ↦ ground (arith, other, h)
  | inl same ↦ ((eq_iff a s).0 same, (v, ground (arith, same, h)))
]

Fits-wildcard :
    (s : String) (p : List Segment) (path : List String)
    → Fits (wildcard ∷ p) (s ∷ path)
    → Fits p path
unfolding fits captured
Fits-wildcard s p path (v, h) = elim (Option-cases (fits p path)) [
  | inl bad ↦ ground (arith, bad, h)
  | inr (w, fine) ↦ (w, fine)
]

pub Fits-overlap :
    (p q : List Segment) (path : List String) → Fits p path → Fits q path → overlap p q ≡ true
unfolding fits overlap
Fits-overlap [] [] path h k = refl
Fits-overlap [] (b ∷ q) [] h (v, k) = cc
Fits-overlap [] (b ∷ q) (s ∷ path) (v, h) k = cc
Fits-overlap (a ∷ p) [] [] (v, h) k = cc
Fits-overlap (a ∷ p) [] (s ∷ path) h (v, k) = cc
Fits-overlap (literal a ∷ p) (b ∷ q) [] (v, h) k = cc
Fits-overlap (wildcard ∷ p) (b ∷ q) [] (v, h) k = cc
Fits-overlap (literal a ∷ p) (literal b ∷ q) (s ∷ path) h k =
    let (own, h') = Fits-literal a s p path h in
    let (other, k') = Fits-literal b s q path k in
    let same : (a == b) ≡ true = (eq_iff a b).1 (own ∙ sym other) in
    rw (same, Fits-overlap p q path h' k') refl
Fits-overlap (literal a ∷ p) (wildcard ∷ q) (s ∷ path) h k =
    Fits-overlap p q path (Fits-literal a s p path h).1 (Fits-wildcard s q path k)
Fits-overlap (wildcard ∷ p) (literal b ∷ q) (s ∷ path) h k =
    Fits-overlap p q path (Fits-wildcard s p path h) (Fits-literal b s q path k).1
Fits-overlap (wildcard ∷ p) (wildcard ∷ q) (s ∷ path) h k =
    Fits-overlap p q path (Fits-wildcard s p path h) (Fits-wildcard s q path k)

-- whether some method is admitted by both routes
unfoldable pub share : (r q : Route) → Bool
share r q =
    r.method == q.method
    || r.method == "GET" && q.method == "HEAD"
    || r.method == "HEAD" && q.method == "GET"

pub admits-share :
    (r q : Route) (method : String)
    → admits r method ≡ true
    → admits q method ≡ true
    → share r q ≡ true
unfolding admits share
admits-share r q method h k = ground (
  arith,
  h,
  k,
  eq_iff r.method method,
  eq_iff q.method method,
  eq_iff r.method "GET",
  eq_iff q.method "GET",
  eq_iff method "HEAD",
  eq_iff r.method q.method,
  eq_iff r.method "HEAD",
  eq_iff q.method "HEAD",
)
