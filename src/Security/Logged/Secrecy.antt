-- ===== src/Security/Logged/Secrecy.antt =====
-- What a log tells of the secrets in the objects that are logged.
use b24_sinedis.Prelude.{String, true, Option, ◌≡◌, refl, ap}
use b24_sinedis.Security.Redaction.{redaction_mask, is_sensitive_key}
use b24_sinedis.Security.Logged.{
  Datum, secret, text, mapping, list_of, tuple_of, set_of, Entries, entry, no_entry, Elements,
  element, no_element, distinct, redact_sensitive_data, redact_entries, redact_elements, LogRecord,
  filter,
}

-- Two objects that differ only in secrets: in what a SecretStr holds, and in the values of sensitive keys.
mutual
  pub data Alike : Datum → Datum → Type 0 where
    same : (x : Datum) → Alike x x
    secrets : (s t : String) → Alike (secret s) (secret t)
    mappings : {d e : Entries} → AlikeEntries d e → Alike (mapping d) (mapping e)
    lists : {xs ys : Elements} → AlikeElements xs ys → Alike (list_of xs) (list_of ys)
    tuples : {xs ys : Elements} → AlikeElements xs ys → Alike (tuple_of xs) (tuple_of ys)
    sets : {xs ys : Elements} → AlikeElements xs ys → Alike (set_of xs) (set_of ys)

  pub data AlikeEntries : Entries → Entries → Type 0 where
    no_entries : AlikeEntries no_entry no_entry
    hidden :
        (key : String) (v w : Datum) {d e : Entries}
        → is_sensitive_key key ≡ true
        → AlikeEntries d e
        → AlikeEntries (entry key v d) (entry key w e)
    shown :
        (key : String) {v w : Datum} {d e : Entries}
        → Alike v w
        → AlikeEntries d e
        → AlikeEntries (entry key v d) (entry key w e)

  pub data AlikeElements : Elements → Elements → Type 0 where
    no_elements : AlikeElements no_element no_element
    elements :
        {x y : Datum} {xs ys : Elements}
        → Alike x y
        → AlikeElements xs ys
        → AlikeElements (element x xs) (element y ys)

mutual
  unfolding redact_sensitive_data

  pub redact-Alike : {x y : Datum} → Alike x y → redact_sensitive_data x ≡ redact_sensitive_data y
  redact-Alike (same x) = refl
  redact-Alike (secrets s t) = refl
  redact-Alike (mappings h) = ap mapping (redact_entries-Alike h)
  redact-Alike (lists h) = ap list_of (redact_elements-Alike h)
  redact-Alike (tuples h) = ap tuple_of (redact_elements-Alike h)
  redact-Alike (sets h) = ap (λ zs. set_of (distinct zs)) (redact_elements-Alike h)

  redact_entries-Alike : {d e : Entries} → AlikeEntries d e → redact_entries d ≡ redact_entries e
  redact_entries-Alike no_entries = refl
  redact_entries-Alike (hidden key v w s h) =
      rw (s) (ap (entry key (text redaction_mask)) (redact_entries-Alike h))
  redact_entries-Alike (shown key a h) = rw (redact-Alike a, redact_entries-Alike h) refl

  redact_elements-Alike :
      {xs ys : Elements} → AlikeElements xs ys → redact_elements xs ≡ redact_elements ys
  redact_elements-Alike no_elements = refl
  redact_elements-Alike (elements a h) = rw (redact-Alike a, redact_elements-Alike h) refl

module _ (get_message : Datum → Datum → Option String) (r : LogRecord) (args : Datum) where
  -- A record that is logged is the same whatever the secrets in the arguments of its message: what a
  -- SecretStr holds, and the values of sensitive keys at any depth of mappings, lists, tuples and sets.
  pub filter-Alike :
      Alike r.args args → filter get_message r ≡ filter get_message (record r { args = args })
  unfolding filter
  filter-Alike h = rw (filter, redact-Alike h) refl
