-- ===== src/Trace/Redact.antt =====
-- internal/trace/redact.go: what of a text reaches a trace.
use grok_mcp.Prelude.{
  ℕ, ◌+◌, String, Bool, not, ◌&&◌, ◌||◌, List, [], ◌∷◌, ◌==◌, String_eq, if◌then◌else◌, ltb, codes,
  concat,
}
use grok_mcp.Trace.State.{Value, text, number, object, other, Fields, no_fields, field}

-- What the source takes from other packages: the replacement of credentials by the pattern `credRE`
-- (regexp), the digest in hexadecimal (crypto/sha256) and strings.ToLower.
pub record Scrubber : Type 0 where
  pub redact : String → String
  pub digest : String → String
  pub lower : String → String

-- The bytes of a code point in UTF-8.
abbrev pub code_size : ℕ → ℕ
code_size c = if ltb c 128 then 1 else if ltb c 2048 then 2 else if ltb c 65_536 then 3 else 4

abbrev pub total_size : List ℕ → ℕ
total_size [] = 0
total_size (c ∷ cs) = code_size c + total_size cs

-- Go's `len` of a string.
unfoldable pub byte_length : String → ℕ
byte_length s = total_size (codes s)

-- `out[k] = v`
unfoldable pub put_field : String → Value → Fields → Fields
put_field k v no_fields = field k v no_fields
put_field k v (field j w fs) = if k == j then field k v fs else field j w (put_field k v fs)

module _ (scrub : Scrubber) where
  unfoldable pub is_payload : String → Bool
  is_payload k =
      let lk = scrub.lower k in
      lk == "prompt" || lk == "content" || lk == "payload" || lk == "body" || lk == "text"

  unfoldable pub is_bulk : String → Bool
  is_bulk k = let lk = scrub.lower k in lk == "content" || lk == "file" || lk == "data"

  -- The case of a string in `sanitizeValue`.
  unfoldable pub sanitize_text : Bool → String → String → Value
  unfolding is_bulk byte_length
  sanitize_text payloads k t =
      let s = scrub.redact t in
      if not payloads && is_bulk k && ltb 200 (byte_length s)
      then object
          (field "length" (number (byte_length t)) (field "hash" (text (scrub.digest t)) no_fields))
      else text s

  -- The case of a payload in `SanitizeFields`: its length and digest in place of its text.
  unfoldable pub hide_payload : String → String → Fields → Fields
  unfolding put_field byte_length
  hide_payload k s out =
      put_field (concat k "_hash") (text (scrub.digest s))
        (put_field (concat k "_length") (number (byte_length s)) out)

  -- The case of a string in `SanitizeFields`.
  unfoldable pub add_text : Bool → String → String → Fields → Fields
  unfolding is_payload hide_payload sanitize_text put_field
  add_text payloads k s out =
      if not payloads && is_payload k
      then hide_payload k s out
      else put_field k (sanitize_text payloads k s) out

  -- The loop of `SanitizeFields`, with what `out` has so far, and `sanitizeValue`.
  unfoldable mutual
    unfolding add_text put_field

    pub sanitize_onto : Bool → Fields → Fields → Fields
    sanitize_onto payloads out no_fields = out
    sanitize_onto payloads out (field k (text s) rest) =
        sanitize_onto payloads (add_text payloads k s out) rest
    sanitize_onto payloads out (field k (number n) rest) =
        sanitize_onto payloads (put_field k (number n) out) rest
    sanitize_onto payloads out (field k (object fs) rest) =
        sanitize_onto payloads (put_field k (object (sanitize_onto payloads no_fields fs)) out) rest
    sanitize_onto payloads out (field k (other raw) rest) =
        sanitize_onto payloads (put_field k (other raw) out) rest

  -- `SanitizeFields`
  unfoldable pub sanitize_fields : Bool → Fields → Fields
  unfolding sanitize_onto
  sanitize_fields payloads fs = sanitize_onto payloads no_fields fs
