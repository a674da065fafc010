-- ===== src/Mcp/Lines.antt =====
-- mcp.py: what the gateway writes. A JSON value is `Json`, a number in it is its text, and the
-- functions of Python's `json` and `str` are a parameter.
use notebook_launcher.Prelude.{
  ℕ, ◌+◌, String, Bool, true, false, Option, none, some, leb, str_eq, if◌then◌else◌,
}
use Prim.Native.String.{◌++◌ as join_text}
use notebook_launcher.Action.{Result, ok, err, value_error}
use notebook_launcher.Mcp.Largest.{largest_fitting}

mutual
  pub data Json : Type 0 where
    null : Json
    boolean : Bool → Json
    number : String → Json
    string : String → Json
    array : Items → Json
    object : Entries → Json

  pub data Items : Type 0 where
    no_items : Items
    item : Json → Items → Items

  pub data Entries : Type 0 where
    no_entries : Entries
    entry : String → Json → Entries → Entries

-- `json.dumps` with `ensure_ascii=False` and with `True`, the number of bytes of a text in UTF-8, or
-- what `encode` raises where the text has a lone surrogate, the number of characters of a text, `s[:n]`, `str(value)`, and whether a number is finite.
pub record JsonTexts : Type 0 where
  pub dump : Json → String
  pub dump_ascii : Json → String
  pub bytes : String → Result ℕ
  pub length : String → ℕ
  pub prefix : ℕ → String → String
  pub text : Json → String
  pub is_finite : String → Bool

abbrev pub has_key : String → Entries → Bool
has_key key no_entries = false
has_key key (entry k v rest) = if str_eq k key then true else has_key key rest

-- `mapping.get(key, default)`
abbrev pub get_or : String → Json → Entries → Json
get_or key default no_entries = default
get_or key default (entry k v rest) = if str_eq k key then v else get_or key default rest

-- `{key: value[key] for key in (…) if key in value}`
abbrev pub keep_key : String → Entries → Entries → Entries
keep_key key value rest = if has_key key value then entry key (get_or key null value) rest else rest

abbrev pub essential : Entries → Entries
essential value = keep_key "document_version" value (
    keep_key "etag" value
      (keep_key "version" value (keep_key "path" value (keep_key "cell_id" value no_entries))))

-- The candidate of the length that a search has found.
abbrev pub candidate_of {ℓ} : {A : Type ℓ} → (ℕ → A) → Option ℕ → Option A
candidate_of f none = none
candidate_of f (some n) = some (f n)

abbrev pub on_ok : {A B : Type 0} → Result A → (A → Result B) → Result B
on_ok (ok a) f = f a
on_ok (err e) f = err e

abbrev pub or_empty : Option Json → Json → Json
or_empty none empty = empty
or_empty (some preview) empty = preview

-- One byte is the newline.
abbrev pub line : String → String
line encoded = join_text encoded "\n"

abbrev pub jsonrpc_error : Json → Json → String → Json
jsonrpc_error request_id code message = object (
    entry "jsonrpc" (string "2.0") (
      entry "id" request_id (
        entry "error" (object (entry "code" code (entry "message" (string message) no_entries)))
          no_entries)))

module _ (t : JsonTexts) where
  unfoldable mutual
    pub cap_json_strings : Json → ℕ → Json
    cap_json_strings (string s) limit = string (t.prefix limit s)
    cap_json_strings (array l) limit = array (cap_items l limit)
    cap_json_strings (object e) limit = object (cap_entries e limit)
    cap_json_strings null limit = null
    cap_json_strings (boolean b) limit = boolean b
    cap_json_strings (number n) limit = number n

    pub cap_items : Items → ℕ → Items
    cap_items no_items limit = no_items
    cap_items (item v rest) limit = item (cap_json_strings v limit) (cap_items rest limit)

    pub cap_entries : Entries → ℕ → Entries
    cap_entries no_entries limit = no_entries
    cap_entries (entry k v rest) limit = entry k (cap_json_strings v limit) (cap_entries rest limit)

  abbrev pub size : Json → Result ℕ
  size value = t.bytes (t.dump value)

  abbrev pub size_fits : ℕ → Json → Result Bool
  size_fits limit value = on_ok (size value) (λ n. ok (leb n limit))

  unfoldable pub largest_string_capped_value : Json → ℕ → Result (Option Json)
  largest_string_capped_value value limit =
      on_ok (largest_fitting (λ n. size_fits limit (cap_json_strings value n)) 0 limit)
        (λ best. ok (candidate_of (cap_json_strings value) best))

  -- The part of `_structured_preview` behind the first search.
  abbrev pub reduced : Json → ℕ → Result Json
  reduced (object e) limit =
      on_ok (largest_string_capped_value (object (essential e)) limit)
        (λ preview. ok (or_empty preview (object no_entries)))
  reduced (array l) limit = ok (array no_items)
  reduced null limit = ok null
  reduced (boolean b) limit = ok null
  reduced (number n) limit = ok null
  reduced (string s) limit = ok null

  abbrev pub preview_or_reduced : Option Json → Json → ℕ → Result Json
  preview_or_reduced (some preview) value limit = ok preview
  preview_or_reduced none value limit = reduced value limit

  unfoldable pub structured_preview : Json → ℕ → Result Json
  structured_preview value limit = on_ok (size_fits limit value) (λ b.
      if b
      then ok value
      else on_ok (largest_string_capped_value value limit)
          (λ preview. preview_or_reduced preview value limit))

  -- The answer for a number: what `encode` raises is a `ValueError`, which is caught.
  abbrev pub safe_number : String → Result ℕ → Json
  safe_number n (ok length) = if leb length 128 then number n else null
  safe_number n (err e) = null

  -- `_safe_request_id`
  unfoldable pub safe_request_id : Json → Result Json
  safe_request_id (number n) =
      if t.is_finite n then ok (safe_number n (t.bytes (t.dump_ascii (number n)))) else ok null
  safe_request_id (string s) =
      on_ok (t.bytes s) (λ length. ok (if leb length 128 then string s else null))
  safe_request_id null = ok null
  safe_request_id (boolean b) = ok null
  safe_request_id (array l) = ok null
  safe_request_id (object e) = ok null

  abbrev pub line_fits : ℕ → String → Result Bool
  line_fits limit encoded = on_ok (t.bytes encoded) (λ n. ok (leb (n + 1) limit))

  -- The text of an error response whose message is cut to a length.
  abbrev pub cut_error : Json → Json → String → ℕ → String
  cut_error request_id code message n =
      t.dump_ascii (jsonrpc_error request_id code (t.prefix n message))

  -- A round of the loop makes the request id again, and it is the same each time.
  abbrev pub cut_fits : Json → Json → String → ℕ → ℕ → Result Bool
  cut_fits id code message limit n =
      on_ok (safe_request_id id)
        (λ request_id. line_fits limit (cut_error request_id code message n))

  abbrev pub longest_error : Json → Json → String → ℕ → Result (Option String)
  longest_error id code message limit =
      on_ok (largest_fitting (cut_fits id code message limit) 0 (t.length message)) (λ best.
        on_ok (safe_request_id id)
          (λ request_id. ok (candidate_of (cut_error request_id code message) best)))

  -- `str(error.get("message", ""))`
  abbrev pub message_of : Entries → String
  message_of error = t.text (get_or "message" (string "") error)

  -- `error = response.get("error")`, and its cut text where it is an error with a code
  abbrev pub cut_response : Entries → Json → ℕ → Result (Option String)
  cut_response response (object error) limit =
      if has_key "code" error
      then longest_error (get_or "id" null response) (get_or "code" null error) (message_of error)
          limit
      else ok none
  cut_response response _ limit = ok none

  abbrev pub fallback : Json → String
  fallback request_id =
      t.dump_ascii
        (jsonrpc_error request_id (number "-32603") "Response exceeds configured output limit")

  abbrev pub write_fallback : ℕ → String → Result String
  write_fallback limit encoded = on_ok (line_fits limit encoded) (λ b.
      if b
      then ok (line encoded)
      else err (value_error "output_limit is too small for a JSON-RPC error"))

  abbrev pub fall_back : Entries → ℕ → Result String
  fall_back response limit =
      on_ok (safe_request_id (get_or "id" null response))
        (λ request_id. write_fallback limit (fallback request_id))

  abbrev pub cut_or_fall_back : Option String → Entries → ℕ → Result String
  cut_or_fall_back (some best) response limit = ok (line best)
  cut_or_fall_back none response limit = fall_back response limit

  unfoldable pub encode_response_line : Entries → ℕ → Result String
  encode_response_line response limit = on_ok (line_fits limit (t.dump (object response))) (λ b.
      if b
      then ok (line (t.dump (object response)))
      else on_ok (cut_response response (get_or "error" null response) limit)
          (λ best. cut_or_fall_back best response limit))
