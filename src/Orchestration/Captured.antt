-- ===== src/Orchestration/Captured.antt =====
-- A capture keeps the first bytes of the stream up to its limit and counts them all.
use notebook_launcher.Prelude.{
  ℕ, zero, suc, ◌+◌, ◌-◌, ◌≤◌, ◌≡◌, List, [], ◌∷◌, ◌++◌, length, ltb, refl, arith, ap, sym, ◌∙◌,
  Bool-cases, inl, inr,
}
use notebook_launcher.Orchestration.Capture.{
  take, concat, BoundedCapture, new_capture, store, read, value,
}

-- The bytes of the stream, up to its end.
abbrev pub bytes_of : List (List ℕ) → List ℕ
bytes_of [] = []
bytes_of ([] ∷ stream) = []
bytes_of ((b ∷ chunk) ∷ stream) = (b ∷ chunk) ++ bytes_of stream

take_nil : (n : ℕ) → take {A = ℕ} n [] ≡ []
take_nil zero = refl
take_nil (suc n) = refl

append_assoc : (a b c : List ℕ) → (a ++ b) ++ c ≡ a ++ (b ++ c)
append_assoc [] b c = refl
append_assoc (x ∷ a) b c = ap (λ l. x ∷ l) (append_assoc a b c)

append_nil : (a : List ℕ) → a ++ [] ≡ a
append_nil [] = refl
append_nil (x ∷ a) = ap (λ l. x ∷ l) (append_nil a)

concat-append : (a : List (List ℕ)) (b : List ℕ) → concat (a ++ (b ∷ [])) ≡ concat a ++ b
concat-append [] b = append_nil b
concat-append (x ∷ a) b = ap (λ l. x ++ l) (concat-append a b) ∙ sym (append_assoc x (concat a) b)

length-append : (a b : List ℕ) → length (a ++ b) ≡ length a + length b
length-append [] b = omega arith
length-append (x ∷ a) b = omega (arith, length-append a b)

take-append : (n : ℕ) (a b : List ℕ) → take n (a ++ b) ≡ take n a ++ take (n - length (take n a)) b
take-append zero a b = refl
take-append (suc n) [] b = ap (λ m. take m b) same
  where
    same : suc n ≡ suc n - 0
    same = omega arith
take-append (suc n) (x ∷ a) b =
    ap (λ l. x ∷ l) (take-append n a b) ∙ ap (λ m. (x ∷ take n a) ++ take m b) same
  where
    same : n - length (take n a) ≡ suc n - suc (length (take n a))
    same = omega arith

length-take : (n : ℕ) (a : List ℕ) → length (take n a) ≤ n
length-take zero a = omega arith
length-take (suc n) [] = omega arith
length-take (suc n) (x ∷ a) = omega (arith, length-take n a)

-- The capture has seen these bytes.
pub record HasSeen (seen : List ℕ) (c : BoundedCapture) : Type 0 where
  pub bytes : value c ≡ take c.limit seen
  pub size : c.kept ≡ length (take c.limit seen)
  pub all : c.total ≡ length seen

module _ (seen chunk : List ℕ) (c : BoundedCapture) (h : HasSeen seen c) where
  joined : take c.limit seen ++ take (c.limit - c.kept) chunk ≡ take c.limit (seen ++ chunk)
  joined =
      ap (λ n. take c.limit seen ++ take (c.limit - n) chunk) h.size
      ∙ sym (take-append c.limit seen chunk)

  more_bytes :
      concat (c.chunks ++ (take (c.limit - c.kept) chunk ∷ [])) ≡ take c.limit (seen ++ chunk)
  more_bytes =
      concat-append c.chunks (take (c.limit - c.kept) chunk)
      ∙ ap (λ l. l ++ take (c.limit - c.kept) chunk) h.bytes
      ∙ joined

  more_size :
      c.kept + length (take (c.limit - c.kept) chunk) ≡ length (take c.limit (seen ++ chunk))
  more_size = omega (
    arith,
    h.size,
    ap length joined,
    length-append (take c.limit seen) (take (c.limit - c.kept) chunk),
  )

  module _ (full : c.limit - c.kept ≡ 0) where
    same_bytes : take c.limit seen ≡ take c.limit (seen ++ chunk)
    same_bytes =
        sym (append_nil (take c.limit seen))
        ∙ ap (λ n. take c.limit seen ++ take n chunk) (sym full)
        ∙ joined

store-HasSeen :
    (seen chunk : List ℕ) (c : BoundedCapture)
    → HasSeen seen c
    → HasSeen (seen ++ chunk) (store chunk c)
unfolding store
store-HasSeen seen chunk c h = elim (Bool-cases (ltb 0 (c.limit - c.kept))) [
  | inl e ↦ rw e (record {
    bytes = more_bytes seen chunk c h;
    size = more_size seen chunk c h;
    all = omega (arith, h.all, length-append seen chunk);
  })
  | inr e ↦ rw e (record {
    bytes = h.bytes ∙ same_bytes seen chunk c h (ground arith);
    size = h.size ∙ ap length (same_bytes seen chunk c h (ground arith));
    all = omega (arith, h.all, length-append seen chunk);
  })
]

read-HasSeen :
    (stream : List (List ℕ)) (seen : List ℕ) (c : BoundedCapture)
    → HasSeen seen c
    → HasSeen (seen ++ bytes_of stream) (read stream c)
unfolding read
read-HasSeen [] seen c h = rw (append_nil seen) h
read-HasSeen ([] ∷ stream) seen c h = rw (append_nil seen) h
read-HasSeen ((b ∷ chunk) ∷ stream) seen c h =
    rw (← append_assoc seen (b ∷ chunk) (bytes_of stream)) (
      read-HasSeen stream (seen ++ (b ∷ chunk)) (store (b ∷ chunk) c)
        (store-HasSeen seen (b ∷ chunk) c h))

store-limit : (chunk : List ℕ) (c : BoundedCapture) → (store chunk c).limit ≡ c.limit
unfolding store
store-limit chunk c = ground arith

read-limit : (stream : List (List ℕ)) (c : BoundedCapture) → (read stream c).limit ≡ c.limit
unfolding read
read-limit [] c = refl
read-limit ([] ∷ stream) c = refl
read-limit ((b ∷ chunk) ∷ stream) c =
    read-limit stream (store (b ∷ chunk) c) ∙ store-limit (b ∷ chunk) c

-- However the stream is cut into chunks, a new capture keeps its first `limit` bytes, never more, and
-- counts every byte of it.
pub read_refines :
    (stream : List (List ℕ)) (limit : ℕ)
    → (value (read stream (new_capture limit)) ≡ take limit (bytes_of stream))
      × (length (value (read stream (new_capture limit))) ≤ limit)
      × ((read stream (new_capture limit)).total ≡ length (bytes_of stream))
read_refines stream limit =
    let seen =
      read-HasSeen stream [] (new_capture limit)
        (record { bytes = new_bytes; size = new_size; all = refl }) in
    let kept =
      seen.bytes ∙ ap (λ n. take n (bytes_of stream)) (read-limit stream (new_capture limit)) in
    (kept, omega (arith, ap length kept, length-take limit (bytes_of stream)), seen.all)
  where
    new_bytes : concat (new_capture limit).chunks ≡ take limit []
    new_bytes = sym (take_nil limit)

    new_size : (new_capture limit).kept ≡ length (take {A = ℕ} limit [])
    new_size = ap length (sym (take_nil limit))
