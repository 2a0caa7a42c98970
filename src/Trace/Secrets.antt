-- ===== src/Trace/Secrets.antt =====
-- What of a text reaches a trace when payloads are not wanted.
use grok_mcp.Prelude.{
  ℕ, String, Bool, Option, none, some, ap, subst, true, false, ◌&&◌, ◌≡◌, refl, ◌==◌, String_eq,
  if◌then◌else◌, ltb, concat, Bool-cases, inl, inr, ◌⊎◌,
}
use grok_mcp.Trace.State.{Value, text, number, object, other, Fields, no_fields, field}
use grok_mcp.Trace.State.{Event, Log, debug_locked}
use grok_mcp.Trace.Emit.{Emitted, stamp, is_dropped, record_event, emit_begin}
use grok_mcp.Trace.Redact.{
  Scrubber, put_field, is_payload, is_bulk, sanitize_text, byte_length, hide_payload, add_text,
  sanitize_onto, sanitize_fields,
}

-- What `Emit` hands out is the event that it has recorded.
is_recorded :
    {Line : Type 0} (dropped : Bool) (l l₁ l' : Log Line) (e₁ e : Emitted)
    → (if◌then◌else◌ {A = Log Line × Option Emitted} dropped (l, none) (l₁, some e₁)) ≡ (l', some e)
    → e₁ ≡ e
is_recorded {Line} true l l₁ l' e₁ e h =
    absurd (cc (ap {A = Log Line × Option Emitted} {B = Option Emitted} (λ p. p.1) h))
is_recorded {Line} false l l₁ l' e₁ e h =
    cc (ap {A = Log Line × Option Emitted} {B = Option Emitted} (λ p. p.1) h)

module _ (scrub : Scrubber) where
  -- A text that a trace may hold under a key: a digest, or, where the key is not one of a payload, a
  -- text without its credentials.
  abbrev pub IsShown : String → String → Type 0
  IsShown k s =
      ((t : String) × (s ≡ scrub.digest t))
      ⊎ ((is_payload scrub k ≡ false) × ((t : String) × (s ≡ scrub.redact t)))

  abbrev mutual
    -- The texts of a value, at any depth of maps; those in values of other types are left out.
    pub IsClean : String → Value → Type 0
    IsClean k (text s) = IsShown k s
    IsClean k (number n) = Unit {0}
    IsClean k (object fs) = AreClean fs
    IsClean k (other raw) = Unit {0}

    pub AreClean : Fields → Type 0
    AreClean no_fields = Unit {0}
    AreClean (field k v fs) = IsClean k v × AreClean fs

  put_field-AreClean :
      (k : String) (v : Value) (out : Fields)
      → IsClean k v
      → AreClean out
      → AreClean (put_field k v out)
  unfolding put_field
  put_field-AreClean k v no_fields a b = (a, tt)
  put_field-AreClean k v (field j w fs) a b = elim (Bool-cases (k == j)) [
    | inl same ↦ rw same (a, b.1)
    | inr differs ↦ rw differs (b.0, put_field-AreClean k v fs a b.1)
  ]

  sanitize_text-IsClean :
      (k s : String) → is_payload scrub k ≡ false → IsClean k (sanitize_text scrub false k s)
  unfolding sanitize_text
  sanitize_text-IsClean k s h =
      elim (Bool-cases (is_bulk scrub k && ltb 200 (byte_length (scrub.redact s)))) [
        | inl long ↦ rw long (tt, (inl (s, refl), tt))
        | inr short ↦ rw short (inr (h, (s, refl)))
      ]

  add_text-AreClean :
      (k s : String) (out : Fields) → AreClean out → AreClean (add_text scrub false k s out)
  unfolding add_text hide_payload
  add_text-AreClean k s out c = elim (Bool-cases (is_payload scrub k)) [
    | inl secret ↦ rw secret (
        put_field-AreClean (concat k "_hash") (text (scrub.digest s))
          (put_field (concat k "_length") (number (byte_length s)) out) (inl (s, refl))
          (put_field-AreClean (concat k "_length") (number (byte_length s)) out tt c))
    | inr shown ↦ rw shown (
        put_field-AreClean k (sanitize_text scrub false k s) out (sanitize_text-IsClean k s shown)
          c)
  ]

  sanitize_onto-AreClean :
      (fs out : Fields) → AreClean out → AreClean (sanitize_onto scrub false out fs)
  unfolding sanitize_onto
  sanitize_onto-AreClean no_fields out c = c
  sanitize_onto-AreClean (field k (text s) rest) out c =
      sanitize_onto-AreClean rest (add_text scrub false k s out) (add_text-AreClean k s out c)
  sanitize_onto-AreClean (field k (number n) rest) out c =
      sanitize_onto-AreClean rest (put_field k (number n) out)
        (put_field-AreClean k (number n) out tt c)
  sanitize_onto-AreClean (field k (object fs) rest) out c =
      sanitize_onto-AreClean rest
        (put_field k (object (sanitize_onto scrub false no_fields fs)) out)
        (put_field-AreClean k (object (sanitize_onto scrub false no_fields fs)) out
          (sanitize_onto-AreClean fs no_fields tt) c)
  sanitize_onto-AreClean (field k (other raw) rest) out c =
      sanitize_onto-AreClean rest (put_field k (other raw) out)
        (put_field-AreClean k (other raw) out tt c)

  sanitize_fields-AreClean : (fs : Fields) → AreClean (sanitize_fields scrub false fs)
  unfolding sanitize_fields
  sanitize_fields-AreClean fs = sanitize_onto-AreClean fs no_fields tt

  -- Where payloads are not wanted for a job, every value of type string in the fields of an event that
  -- `Emit` records for the job, and in maps of type map[string]any among them at any depth, is a
  -- digest, or it stands under a key that is none of a payload and has passed the removal of
  -- credentials. Nothing is said of texts inside values of other types, as lists and structs.
  pub emit_begin-AreClean :
      {Line : Type 0} (now : ℕ) (ev : Event) (l l' : Log Line) (e : Emitted)
      → (debug_locked l ev.job_id).payloads ≡ false
      → emit_begin scrub now ev l ≡ (l', some e)
      → AreClean e.event.fields
  unfolding emit_begin record_event stamp
  emit_begin-AreClean now ev l l' e off h =
      subst (λ x. AreClean x.event.fields) (is_recorded (is_dropped l ev) l _ l' _ e h)
        (rw off (sanitize_fields-AreClean ev.fields))
