-- ===== src/Mcp/Sized.antt =====
-- Nothing that the gateway makes is larger than its limit.
use notebook_launcher.Prelude.{
  ℕ, ◌+◌, ◌≤◌, ◌<◌, ◌≡◌, ◌⊎◌, String, Bool, true, false, Option, none, some, leb, refl, arith,
  Bool-cases, inl, inr, if◌then◌else◌,
}
use mathlib.Core.Path.{subst}
use notebook_launcher.Action.{Result, ok, err, Error, value_error, Result-cases}
use notebook_launcher.Mcp.Largest.{largest_fitting}
use notebook_launcher.Mcp.Fitting.{Fitting, largest_fitting-Fitting}
use notebook_launcher.Mcp.Lines.{
  Json, null, object, array, no_items, Entries, no_entries, JsonTexts, size, size_fits,
  candidate_of, on_ok, cap_json_strings, largest_string_capped_value, or_empty, reduced,
  preview_or_reduced, structured_preview, essential, line_fits, line, cut_error, cut_fits,
  longest_error, cut_response, fallback, fall_back, cut_or_fall_back, encode_response_line, get_or,
  has_key, safe_request_id, message_of,
}

-- A chain that ends well has a first part that does.
on_ok-cases :
    {A B : Type 0} (r : Result A) (f : A → Result B) {b : B}
    → on_ok r f ≡ ok b
    → (a : A) × (r ≡ ok a) × (f a ≡ ok b)
on_ok-cases (ok a) f h = (a, refl, h)
on_ok-cases (err e) f h = cc

-- What an answer is to satisfy, and an exception.
abbrev Ends : {A : Type 0} → (A → Type 0) → (Error → Type 0) → Result A → Type 0
Ends P Q (ok a) = P a
Ends P Q (err e) = Q e

Ends-on_ok :
    {A B : Type 0} (P : A → Type 0) (R : B → Type 0) (Q : Error → Type 0) (r : Result A)
    (f : A → Result B)
    → Ends P Q r
    → ((a : A) → P a → Ends R Q (f a))
    → Ends R Q (on_ok r f)
Ends-on_ok P R Q (ok a) f h k = k a h
Ends-on_ok P R Q (err e) f h k = h

-- The candidate that a search has found, if any.
abbrev Candidate : {A : Type 0} → (A → Type 0) → Option A → Type 0
Candidate P none = Unit
Candidate P (some a) = P a

searched_for :
    {A : Type 0} (f : ℕ → A) (P : A → Type 0) (Q : Error → Type 0) (fits : ℕ → Result Bool)
    (r : Result (Option ℕ))
    → Fitting fits r
    → ((n : ℕ) → fits n ≡ ok true → P (f n))
    → ((n : ℕ) (e : Error) → fits n ≡ err e → Q e)
    → Ends (λ o. Candidate P (candidate_of f o)) Q r
searched_for f P Q fits (ok none) h p q = tt
searched_for f P Q fits (ok (some k)) h p q = p k h
searched_for f P Q fits (err e) (n, h) p q = q n e h

answered :
    {A B : Type 0} (P : B → Type 0) (Q : Error → Type 0) (r : Result A) (f : A → Result B)
    → ((e : Error) → r ≡ err e → Q e)
    → ((a : A) → r ≡ ok a → Ends P Q (f a))
    → Ends P Q (on_ok r f)
answered P Q (ok a) f q p = p a refl
answered P Q (err e) f q p = q e refl

module _ (t : JsonTexts) where
  -- The value has a text of so many bytes, within the limit.
  abbrev pub Fits : ℕ → Json → Type 0
  Fits limit value = (n : ℕ) × (size t value ≡ ok n) × (n ≤ limit)

  size_fits-Fits : (limit : ℕ) (value : Json) → size_fits t limit value ≡ ok true → Fits limit value
  size_fits-Fits limit value h =
      let (n, e, f) = on_ok-cases (size t value) (λ n. ok (leb n limit)) h in (n, e, ground arith)

  -- Any exception.
  abbrev Raised : Error → Type 0
  Raised e = Unit

  capped-Fits :
      (value : Json) (limit : ℕ)
      → Ends (Candidate (Fits limit)) Raised (largest_string_capped_value t value limit)
  unfolding largest_string_capped_value
  capped-Fits value limit =
      let fits : ℕ → Result Bool = λ n. size_fits t limit (cap_json_strings t value n) in
      Ends-on_ok _ _ Raised (largest_fitting fits 0 limit) _
        (searched_for (cap_json_strings t value) (Fits limit) Raised fits
          (largest_fitting fits 0 limit) (largest_fitting-Fitting fits 0 limit)
          (λ n. size_fits-Fits limit (cap_json_strings t value n)) (λ n e q. tt))
        (λ o h. h)

  or_empty-Fits :
      (o : Option Json) (empty : Json) (limit : ℕ)
      → Candidate (Fits limit) o
      → Fits limit empty
      → Fits limit (or_empty o empty)
  or_empty-Fits none empty limit h e = e
  or_empty-Fits (some p) empty limit h e = h

  preview : (r : Result Json) (P : Json → Type 0) {p : Json} → Ends P Raised r → r ≡ ok p → P p
  preview (ok a) P {p} h e = subst P same h
    where
      same : a ≡ p
      same = cc
  preview (err x) P h e = cc

  module _ (limit : ℕ) (n : Fits limit null) (l : Fits limit (array no_items))
      (o : Fits limit (object no_entries)) where
    reduced-Fits : (value : Json) → Ends (Fits limit) Raised (reduced t value limit)
    reduced-Fits (object e) =
        Ends-on_ok _ _ Raised (largest_string_capped_value t (object (essential e)) limit) _
          (capped-Fits (object (essential e)) limit)
          (λ p h. or_empty-Fits p (object no_entries) limit h o)
    reduced-Fits (array items) = l
    reduced-Fits null = n
    reduced-Fits (Json.boolean b) = n
    reduced-Fits (Json.number m) = n
    reduced-Fits (Json.string s) = n

    preview_or_reduced-Fits :
        (value : Json) (p : Option Json)
        → Candidate (Fits limit) p
        → Ends (Fits limit) Raised (preview_or_reduced t p value limit)
    preview_or_reduced-Fits value none h = reduced-Fits value
    preview_or_reduced-Fits value (some p) h = h

    whole_or_less :
        (value : Json) (b : Bool)
        → size_fits t limit value ≡ ok b
        → Ends (Fits limit) Raised (
            if b
            then ok value
            else on_ok
                (largest_string_capped_value t value limit)
                (λ p. preview_or_reduced t p value limit))
    whole_or_less value true h = size_fits-Fits limit value h
    whole_or_less value false h =
        Ends-on_ok _ _ Raised (largest_string_capped_value t value limit) _
          (capped-Fits value limit) (preview_or_reduced-Fits value)

    -- Where null, the empty list and the empty object fit the limit, the preview of a JSON value that
    -- is returned fits it.
    pub structured_preview_bounds :
        (value p : Json) → structured_preview t value limit ≡ ok p → Fits limit p
    unfolding structured_preview
    structured_preview_bounds value p =
        preview _ (Fits limit) (
          answered (Fits limit) Raised (size_fits t limit value) _ (λ e q. tt)
            (whole_or_less value))

  -- A line that is made so.
  abbrev pub IsLine : ℕ → String → Type 0
  IsLine limit l = (s : String) × (n : ℕ) × (l ≡ line s) × (t.bytes s ≡ ok n) × (n + 1 ≤ limit)

  -- A refusal means that not even the general error with the request's id fits, or that a text that
  -- was to be written or a request id has no UTF-8.
  abbrev pub IsRefused : Entries → ℕ → Error → Type 0
  IsRefused response limit e =
      ((id : Json) × (n : ℕ) × (safe_request_id t (get_or "id" null response) ≡ ok id)
        × (t.bytes (fallback t id) ≡ ok n)
        × (limit < n + 1)
        × (e ≡ value_error "output_limit is too small for a JSON-RPC error"))
      ⊎ ((s : String) × (t.bytes s ≡ err e))

  abbrev pub IsWritten : Entries → ℕ → Result String → Type 0
  IsWritten response limit (ok l) = IsLine limit l
  IsWritten response limit (err e) = IsRefused response limit e

  module _ (response : Entries) (limit : ℕ) where
    abbrev Refused : Error → Type 0
    Refused e = IsRefused response limit e

    abbrev Written : Result String → Type 0
    Written r = Ends (IsLine limit) Refused r

    fits-IsLine : (s : String) → line_fits t limit s ≡ ok true → IsLine limit (line s)
    fits-IsLine s h =
        let (n, e, f) = on_ok-cases (t.bytes s) (λ n. ok (leb (n + 1) limit)) h in
        (s, n, refl, e, ground arith)

    bytes-Refused : (s : String) (e : Error) → line_fits t limit s ≡ err e → Refused e
    bytes-Refused s e h = elim (Result-cases (t.bytes s)) [
      | inl (n, q) ↦ absurd (ground arith)
      | inr (x, q) ↦ inr (s, ground arith)
    ]

    id-Refused : (id : Json) (e : Error) → safe_request_id t id ≡ err e → Refused e
    unfolding safe_request_id
    id-Refused (Json.string s) e h = elim (Result-cases (t.bytes s)) [
      | inl (n, q) ↦ absurd (ground arith)
      | inr (x, q) ↦ inr (s, ground arith)
    ]
    id-Refused (Json.number n) e h = elim (Bool-cases (t.is_finite n)) [
      | inl q ↦ absurd (ground arith)
      | inr q ↦ absurd (ground arith)
    ]
    id-Refused null e h = cc
    id-Refused (Json.boolean b) e h = cc
    id-Refused (array l) e h = cc
    id-Refused (object o) e h = cc

    fall_back-Written : Written (fall_back t response limit)
    fall_back-Written =
        let id = safe_request_id t (get_or "id" null response) in
        answered (IsLine limit) Refused id _ (id-Refused (get_or "id" null response)) (λ i is_id.
          answered (IsLine limit) Refused (line_fits t limit (fallback t i)) _
            (bytes-Refused (fallback t i)) (last i is_id))
      where
        last :
            (i : Json)
            → safe_request_id t (get_or "id" null response) ≡ ok i
            → (b : Bool) → line_fits t limit (fallback t i) ≡ ok b
            → Written (
                if b
                then ok (line (fallback t i))
                else err (value_error "output_limit is too small for a JSON-RPC error"))
        last i is_id true h = fits-IsLine (fallback t i) h
        last i is_id false h =
            let (n, e, f) = on_ok-cases (t.bytes (fallback t i)) (λ n. ok (leb (n + 1) limit)) h in
            inl (i, n, is_id, e, ground arith, refl)

    cut_or_fall_back-Written :
        (o : Option String)
        → Candidate (λ s. IsLine limit (line s)) o
        → Written (cut_or_fall_back t o response limit)
    cut_or_fall_back-Written none h = fall_back-Written
    cut_or_fall_back-Written (some s) h = h

    -- The texts of an error that the search has found.
    abbrev Cut : Result (Option String) → Type 0
    Cut r = Ends (Candidate (λ s. IsLine limit (line s))) Refused r

    cut_fits-Refused :
        (id code : Json) (message : String) (n : ℕ) (e : Error)
        → cut_fits t id code message limit n ≡ err e
        → Refused e
    cut_fits-Refused id code message n e h = elim (Result-cases (safe_request_id t id)) [
      | inl (i, q) ↦ bytes-Refused (cut_error t i code message n) e (ground arith)
      | inr (x, q) ↦ id-Refused id e (ground arith)
    ]

    candidate-Cut :
        (id code : Json) (message : String) (o : Option ℕ)
        → Fitting (cut_fits t id code message limit) (ok o)
        → Cut (on_ok (safe_request_id t id) (λ i. ok (candidate_of (cut_error t i code message) o)))
    candidate-Cut id code message none h =
        answered _ Refused (safe_request_id t id) _ (id-Refused id) (λ i q. tt)
    candidate-Cut id code message (some k) h =
        answered _ Refused (safe_request_id t id) _ (id-Refused id)
          (λ i q. fits-IsLine (cut_error t i code message k) (ground arith))

    found-Cut :
        (id code : Json) (message : String) (r : Result (Option ℕ))
        → Fitting (cut_fits t id code message limit) r
        → Cut (
            on_ok r (λ o.
              on_ok (safe_request_id t id) (λ i. ok (candidate_of (cut_error t i code message) o))))
    found-Cut id code message (ok o) h = candidate-Cut id code message o h
    found-Cut id code message (err e) (n, h) = cut_fits-Refused id code message n e h

    longest_error-Cut :
        (id code : Json) (message : String) → Cut (longest_error t id code message limit)
    longest_error-Cut id code message =
        let fits : ℕ → Result Bool = cut_fits t id code message limit in
        found-Cut id code message (largest_fitting fits 0 (t.length message))
          (largest_fitting-Fitting fits 0 (t.length message))

    error-Cut : (error : Json) → Cut (cut_response t response error limit)
    error-Cut (object error) = elim (Bool-cases (has_key "code" error)) [
      | inl e ↦ rw e (
          longest_error-Cut (get_or "id" null response) (get_or "code" null error)
            (message_of t error))
      | inr e ↦ rw e tt
    ]
    error-Cut null = tt
    error-Cut (Json.boolean b) = tt
    error-Cut (Json.number b) = tt
    error-Cut (Json.string b) = tt
    error-Cut (array b) = tt

    whole_or_cut :
        (b : Bool)
        → line_fits t limit (t.dump (object response)) ≡ ok b
        → Written (
            if b
            then ok (line (t.dump (object response)))
            else on_ok
                (cut_response t response (get_or "error" null response) limit)
                (λ best. cut_or_fall_back t best response limit))
    whole_or_cut true h = fits-IsLine (t.dump (object response)) h
    whole_or_cut false h =
        Ends-on_ok _ _ Refused (cut_response t response (get_or "error" null response) limit) _
          (error-Cut (get_or "error" null response)) cut_or_fall_back-Written

    Written-IsWritten : (r : Result String) → Written r → IsWritten response limit r
    Written-IsWritten (ok l) h = h
    Written-IsWritten (err e) h = h

    -- Each line that is written is a text and a newline and is within the limit, newline included; a
    -- response is refused only where the limit is too small for the general error with the request's
    -- id, or where a text has no UTF-8.
    pub encode_response_line_bounds :
        IsWritten response limit (encode_response_line t response limit)
    unfolding encode_response_line
    encode_response_line_bounds = Written-IsWritten _ (
        answered (IsLine limit) Refused (line_fits t limit (t.dump (object response))) _
          (bytes-Refused (t.dump (object response))) whole_or_cut)
