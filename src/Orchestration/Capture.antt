-- ===== src/Orchestration/Capture.antt =====
-- orchestration.py: `_BoundedCapture`, which keeps the first bytes of a stream. A byte is a number.
use notebook_launcher.Prelude.{
  ℕ, zero, suc, ◌+◌, ◌-◌, List, [], ◌∷◌, ◌++◌, length, ltb, if◌then◌else◌,
}

-- `chunk[:n]`
abbrev pub take : {A : Type 0} → ℕ → List A → List A
take zero l = []
take (suc n) [] = []
take (suc n) (x ∷ l) = x ∷ take n l

-- `b"".join(…)`
abbrev pub concat : {A : Type 0} → List (List A) → List A
concat [] = []
concat (l ∷ r) = l ++ concat r

pub record BoundedCapture : Type 0 where
  pub limit : ℕ
  pub total : ℕ
  pub chunks : List (List ℕ)
  pub kept : ℕ

abbrev pub new_capture : ℕ → BoundedCapture
new_capture limit = record { limit = limit; total = 0; chunks = []; kept = 0 }

-- One round of `read`.
unfoldable pub store : List ℕ → BoundedCapture → BoundedCapture
store chunk c =
    if ltb 0 (c.limit - c.kept)
    then record c {
      total = c.total + length chunk;
      chunks = c.chunks ++ (take (c.limit - c.kept) chunk ∷ []);
      kept = c.kept + length (take (c.limit - c.kept) chunk);
    }
    else record c { total = c.total + length chunk }

-- `read`, on what the stream answers; an empty answer is its end.
unfoldable pub read : List (List ℕ) → BoundedCapture → BoundedCapture
read [] c = c
read ([] ∷ stream) c = c
read ((b ∷ chunk) ∷ stream) c = read stream (store (b ∷ chunk) c)

abbrev pub value : BoundedCapture → List ℕ
value c = concat c.chunks
