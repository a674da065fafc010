-- ===== src/Mcp/Fitting.antt =====
-- The binary search ends, and finds the largest length that fits.
use notebook_launcher.Prelude.{
  ℕ, zero, suc, ◌+◌, ◌-◌, ◌≤◌, ◌<◌, ◌≡◌, Bool, true, false, Option, none, some, ltb, refl, arith,
  ◌∙◌, if◌then◌else◌, Bool-cases, inl, inr, leb, ◌&&◌, sym, ap,
}
use Prim.Native.Nat.{◌^◌, ◌/◌}
use native.Mathlib.Numerals.{unary_clauses}
use notebook_launcher.Action.{Result, ok, err, Result-cases}
use notebook_launcher.Mcp.Largest.{
  Search, middle, narrow, search_from, start, best_of, largest_fitting,
}

-- The loop has ended by its own test, or the test of a length has raised.
abbrev pub IsEnded : (ℕ → Result Bool) → Result Search → Type 0
IsEnded fits (ok s) = s.top ≤ s.low
IsEnded fits (err e) = (n : ℕ) × (fits n ≡ err e)

double : (n : ℕ) → 2 ^ suc n ≡ 2 ^ n + 2 ^ n
double n = simp unary_clauses (omega arith)

-- A round leaves at most half of the range.
halved :
    (b : Bool) (s : Search) (p : ℕ)
    → s.low < s.top
    → s.top - s.low < p + p
    → (narrow b s).top - (narrow b s).low < p
halved true s p more small = omega arith
halved false s p more small = omega arith

-- The loop ends by itself: a range of fewer than `2 ^ n` lengths is searched in `n` rounds, whatever
-- the test answers, unless the test of a length raises.
pub search_from-IsEnded :
    (fuel : ℕ) (fits : ℕ → Result Bool) (s : Search)
    → s.top - s.low < 2 ^ fuel
    → IsEnded fits (search_from fuel fits s)
unfolding search_from
search_from-IsEnded zero fits s h = omega arith
search_from-IsEnded (suc fuel) fits s h = elim (Bool-cases (ltb s.low s.top)) [
  | inl e ↦ elim (Result-cases (fits (middle s))) [
    | inl (b, f) ↦
        rw (e, f)
          (search_from-IsEnded fuel fits (narrow b s)
            (halved b s (2 ^ fuel) (ground arith) (omega (arith, double fuel))))
    | inr (x, f) ↦ rw (e, f) (middle s, f)
  ]
  | inr e ↦ rw e (ground arith)
]

-- What fits at a length fits at each smaller one.
abbrev pub Shrinks : (ℕ → Bool) → Type 0
Shrinks fits = (m n : ℕ) → m ≤ n → fits n ≡ true → fits m ≡ true

-- The answer is the largest length from `low` up to and without `top` that fits, if there is one.
abbrev pub IsLargest : (ℕ → Bool) → ℕ → ℕ → Option ℕ → Type 0
IsLargest fits low top none = (n : ℕ) → low ≤ n → n < top → fits n ≡ false
IsLargest fits low top (some k) =
    (low ≤ k) × (k < top) × (fits k ≡ true) × ((n : ℕ) → k < n → n < top → fits n ≡ false)

module _ (fits : ℕ → Bool) (shrinks : Shrinks fits) (first last : ℕ) where
  -- What the loop has at the start of a round.
  abbrev Searched : ℕ → ℕ → Option ℕ → Type 0
  Searched low top none =
      (low ≡ first) × (top ≤ last) × ((n : ℕ) → top ≤ n → n < last → fits n ≡ false)
  Searched low top (some k) =
      (low ≡ suc k)
      × (first ≤ k)
      × (k < last)
      × (top ≤ last)
      × (fits k ≡ true)
      × ((n : ℕ) → top ≤ n → n < last → fits n ≡ false)

  finished :
      (low top : ℕ) (best : Option ℕ)
      → top ≤ low
      → Searched low top best
      → IsLargest fits first last best
  finished low top none h (a, b, c) = λ n p q. c n (omega arith) q
  finished low top (some k) h (a, b, c, d, e, f) = (b, c, e, λ n p q. f n (omega arith) q)

  narrowed :
      (b : Bool) (low top : ℕ) (best : Option ℕ)
      → let s : Search = record { low = low; top = top; best = best } in
        low < top
        → fits (middle s) ≡ b
        → Searched low top best
        → Searched (narrow b s).low (narrow b s).top (narrow b s).best
  narrowed true low top none h f (a, b, c) = (refl, omega arith, omega arith, b, f, c)
  narrowed true low top (some k) h f (a, b, c, d, e, g) = (refl, omega arith, omega arith, d, f, g)
  narrowed false low top none h f (a, b, c) = (a, omega arith, λ n p q. too_long n p)
    where
      too_long : (n : ℕ) → (low + (top - 1)) / 2 ≤ n → fits n ≡ false
      too_long n p = ground (arith, shrinks ((low + (top - 1)) / 2) n)
  narrowed false low top (some k) h f (a, b, c, d, e, g) =
      (a, b, c, omega arith, e, λ n p q. too_long n p)
    where
      too_long : (n : ℕ) → (low + (top - 1)) / 2 ≤ n → fits n ≡ false
      too_long n p = ground (arith, shrinks ((low + (top - 1)) / 2) n)

  -- The search has answered the largest length.
  abbrev Found : Result Search → Type 0
  Found (ok s) = IsLargest fits first last s.best
  Found (err e) = ⊥

  searched :
      (fuel : ℕ) (s : Search)
      → s.top - s.low ≤ fuel
      → Searched s.low s.top s.best
      → Found (search_from fuel (λ n. ok (fits n)) s)
  unfolding search_from
  searched zero s h q = finished s.low s.top s.best (omega arith) q
  searched (suc fuel) s h q = elim (Bool-cases (ltb s.low s.top)) [
    | inl e ↦ rw e (
        searched fuel (narrow (fits (middle s)) s) (smaller (fits (middle s)) e)
          (narrowed (fits (middle s)) s.low s.top s.best (ground arith) refl q))
    | inr e ↦ rw e (finished s.low s.top s.best (ground arith) q)
  ]
    where
      smaller : (b : Bool) → ltb s.low s.top ≡ true → (narrow b s).top - (narrow b s).low ≤ fuel
      smaller true e = ground arith
      smaller false e = ground arith

  pub Found-best :
      (r : Result Search)
      → Found r
      → (o : Option ℕ) × (best_of r ≡ ok o) × IsLargest fits first last o
  Found-best (ok s) h = (s.best, refl, h)
  Found-best (err e) h = elim h [ ]

-- Where what fits at a length fits at each smaller one, the search finds the largest length between
-- `low` and `high` that fits, or that none does.
pub largest_fitting-IsLargest :
    (fits : ℕ → Bool) (low high : ℕ)
    → Shrinks fits
    → (o : Option ℕ) × (largest_fitting (λ n. ok (fits n)) low high ≡ ok o)
      × IsLargest fits low (suc high) o
largest_fitting-IsLargest fits low high shrinks =
    Found-best fits shrinks low (suc high)
      (search_from (suc high - low) (λ n. ok (fits n)) (start low high))
      (searched fits shrinks low (suc high) (suc high - low) (start low high) (omega arith)
        (refl, omega arith, λ n p q. ground arith))

-- The lengths from `high` down to `low`, one after another, until one fits.
abbrev pub largest_by_scan : (ℕ → Bool) → ℕ → ℕ → Option ℕ
largest_by_scan fits low zero = if leb low 0 && fits 0 then some 0 else none
largest_by_scan fits low (suc n) =
    let rest = largest_by_scan fits low n in
    if leb low (suc n) && fits (suc n) then some (suc n) else rest

module _ (fits : ℕ → Bool) (low : ℕ) where
  scan-none :
      (high : ℕ)
      → ((n : ℕ) → low ≤ n → n < suc high → fits n ≡ false)
      → largest_by_scan fits low high ≡ none
  scan-none zero h = ground (arith, h 0)
  scan-none (suc n) h = ground (arith, h (suc n), scan-none n (λ m p q. h m p (omega arith)))

  scan-some :
      (high k : ℕ)
      → low ≤ k
      → k < suc high
      → fits k ≡ true
      → ((n : ℕ) → k < n → n < suc high → fits n ≡ false)
      → largest_by_scan fits low high ≡ some k
  scan-some zero k p q f g = ground arith
  scan-some (suc n) k p q f g = elim (Bool-cases (ltb k (suc n))) [
    | inl l ↦
        ground (arith, g (suc n), scan-some n k p (ground arith) f (λ m a b. g m a (omega arith)))
    | inr l ↦ ground arith
  ]

  scan_lem :
      (high : ℕ) (best : Option ℕ)
      → IsLargest fits low (suc high) best
      → best ≡ largest_by_scan fits low high
  scan_lem high none h = sym (scan-none high h)
  scan_lem high (some k) (a, b, c, d) = sym (scan-some high k a b c d)

-- Where the test does not raise, and what fits at a length fits at each smaller one, the search finds
-- what a scan from the largest length down finds.
pub largest_fitting_scan :
    (fits : ℕ → Bool) (low high : ℕ)
    → Shrinks fits
    → largest_fitting (λ n. ok (fits n)) low high ≡ ok (largest_by_scan fits low high)
largest_fitting_scan fits low high shrinks =
    let (o, found, largest) = largest_fitting-IsLargest fits low high shrinks in
    found ∙ ap ok (scan_lem fits low high o largest)

-- The length that the search has kept fits, and what it raises the test has raised.
abbrev Kept : (ℕ → Result Bool) → Option ℕ → Type 0
Kept fits none = Unit
Kept fits (some k) = fits k ≡ ok true

abbrev pub KeptBy : (ℕ → Result Bool) → Result Search → Type 0
KeptBy fits (ok s) = Kept fits s.best
KeptBy fits (err e) = (n : ℕ) × (fits n ≡ err e)

narrow-Kept :
    (fits : ℕ → Result Bool) (b : Bool) (s : Search)
    → fits (middle s) ≡ ok b
    → Kept fits s.best
    → Kept fits (narrow b s).best
narrow-Kept fits true s e h = e
narrow-Kept fits false s e h = h

search_from-KeptBy :
    (fuel : ℕ) (fits : ℕ → Result Bool) (s : Search)
    → Kept fits s.best
    → KeptBy fits (search_from fuel fits s)
unfolding search_from
search_from-KeptBy zero fits s h = h
search_from-KeptBy (suc fuel) fits s h = elim (Bool-cases (ltb s.low s.top)) [
  | inl e ↦ elim (Result-cases (fits (middle s))) [
    | inl (b, f) ↦ rw (e, f) (search_from-KeptBy fuel fits (narrow b s) (narrow-Kept fits b s f h))
    | inr (x, f) ↦ rw (e, f) (middle s, f)
  ]
  | inr e ↦ rw e h
]

-- The answer of a search is a length that fits, none, or what the test has raised.
abbrev pub Fitting : (ℕ → Result Bool) → Result (Option ℕ) → Type 0
Fitting fits (ok none) = Unit
Fitting fits (ok (some k)) = fits k ≡ ok true
Fitting fits (err e) = (n : ℕ) × (fits n ≡ err e)

kept : (fits : ℕ → Result Bool) (o : Option ℕ) → Kept fits o → Fitting fits (ok o)
kept fits none h = tt
kept fits (some k) h = h

kept_best : (fits : ℕ → Result Bool) (r : Result Search) → KeptBy fits r → Fitting fits (best_of r)
kept_best fits (ok s) h = kept fits s.best h
kept_best fits (err e) h = h

pub largest_fitting-Fitting :
    (fits : ℕ → Result Bool) (low high : ℕ) → Fitting fits (largest_fitting fits low high)
largest_fitting-Fitting fits low high =
    kept_best fits (search_from (suc high - low) fits (start low high))
      (search_from-KeptBy (suc high - low) fits (start low high) tt)
