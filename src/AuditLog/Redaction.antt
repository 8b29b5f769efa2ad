-- ===== src/AuditLog/Redaction.antt =====
-- Redacted keys and the redaction of src/server/audit-log.ts.
use connexin.Prelude.{
  ◌≡◌, refl, ap, ap₂, false, Option, none, some, inl, inr, if◌then◌else◌, Bool-cases, text_eq,
}
use connexin.Utf8.{Text}
use connexin.AuditLog.{
  Value, Items, Fields, undefined, null, boolean, number, text, array, object, class_instance, nil,
  cons, end, field, is_left_out, redact, redact_value, redact_items,
}

-- No key that is left out in the entries, nor in any plain object below them. What stands in an
-- instance of a class is not looked at.
mutual
  pub IsSafe : Fields → Type 0
  IsSafe end = Unit
  IsSafe (field key value rest) = (is_left_out key ≡ false) × IsSafeValue value × IsSafe rest

  pub IsSafeValue : Value → Type 0
  IsSafeValue (array items) = IsSafeItems items
  IsSafeValue (object fields) = IsSafe fields
  IsSafeValue undefined = Unit
  IsSafeValue null = Unit
  IsSafeValue (boolean b) = Unit
  IsSafeValue (number n) = Unit
  IsSafeValue (text t) = Unit
  IsSafeValue (class_instance fields) = Unit

  pub IsSafeItems : Items → Type 0
  IsSafeItems nil = Unit
  IsSafeItems (cons value rest) = IsSafeValue value × IsSafeItems rest

mutual
  unfolding redact redact_value redact_items IsSafe IsSafeValue IsSafeItems

  IsSafe-redact : (fields : Fields) → IsSafe (redact fields)
  IsSafe-redact end = tt
  IsSafe-redact (field key value rest) = elim (Bool-cases (is_left_out key)) [
    | inl secret ↦ rw (secret) (IsSafe-redact rest)
    | inr plain ↦ rw (plain) (plain, safe_value value, IsSafe-redact rest)
  ]

  safe_value : (value : Value) → IsSafeValue (redact_value value)
  safe_value (array items) = safe_items items
  safe_value (object fields) = IsSafe-redact fields
  safe_value undefined = tt
  safe_value null = tt
  safe_value (boolean b) = tt
  safe_value (number n) = tt
  safe_value (text t) = tt
  safe_value (class_instance fields) = tt

  safe_items : (items : Items) → IsSafeItems (redact_items items)
  safe_items nil = tt
  safe_items (cons value rest) = (safe_value value, safe_items rest)

-- Redacting what has no such key changes nothing.
mutual
  unfolding redact redact_value redact_items IsSafe IsSafeValue IsSafeItems

  kept_fields : (fields : Fields) → IsSafe fields → redact fields ≡ fields
  kept_fields end h = refl
  kept_fields (field key value rest) h =
      rw (h.0) (ap₂ (field key) (kept_value value h.1) (kept_fields rest h.2))

  kept_value : (value : Value) → IsSafeValue value → redact_value value ≡ value
  kept_value (array items) h = ap array (kept_items items h)
  kept_value (object fields) h = ap object (kept_fields fields h)
  kept_value undefined h = refl
  kept_value null h = refl
  kept_value (boolean b) h = refl
  kept_value (number n) h = refl
  kept_value (text t) h = refl
  kept_value (class_instance fields) h = refl

  kept_items : (items : Items) → IsSafeItems items → redact_items items ≡ items
  kept_items nil h = refl
  kept_items (cons value rest) h = ap₂ cons (kept_value value h.0) (kept_items rest h.1)

-- The first entry of a key.
pub entry : Text → Fields → Option Value
entry key end = none
entry key (field k value rest) = if text_eq k key then some value else entry key rest

abbrev pub redact_entry : Text → Option Value → Option Value
redact_entry key none = none
redact_entry key (some value) = if is_left_out key then none else some (redact_value value)
