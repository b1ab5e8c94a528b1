-- ===== src/Robots/Payload/Forms.antt =====
-- A callback that arrives as a form is read like the same callback in JSON.
use b24_sinedis.Prelude.{ℕ, String, ◌≡◌, refl, ◌∙◌}
use b24_sinedis.Value.{Value, obj, Fields, field, end, get}
use b24_sinedis.Prelude.Text.{all_char}
use b24_sinedis.Robots.Payload.{copy_onto, nested_copy}
use b24_sinedis.Robots.Payload.Notation.{IsPlain, form, form-copied}
use b24_sinedis.Robots.Payload.Normalize.{
  Readers, normalize_robot_payload, normalize_rest_request_payload, normalize_wait_field_payload,
}

module _ (key name : String) (v u : Value) (auth properties rest : Fields) where
  -- The two groups of a callback, with at least one entry each, as a form and as JSON.
  abbrev pub as_form : Fields
  as_form = form "auth" (field key v auth) (form "properties" (field name u properties) rest)

  abbrev pub as_json : Fields
  as_json =
      field "auth" (obj (field key v auth))
        (field "properties" (obj (field name u properties)) rest)

  second_group :
      (copied : Value)
      → IsPlain (field name u properties)
      → copy_onto (field "auth" copied end) (form "properties" (field name u properties) rest)
        ≡ copy_onto
            (field "auth" copied end)
            (field "properties" (obj (field name u properties)) rest)
  unfolding get all_char
  second_group copied q =
      form-copied "properties" refl refl name u properties (field "auth" copied end) rest q refl

  nested_copy-form :
      IsPlain (field key v auth)
      → IsPlain (field name u properties)
      → nested_copy as_form ≡ nested_copy as_json
  unfolding copy_onto get all_char
  nested_copy-form p q =
      form-copied "auth" refl refl key v auth end (form "properties" (field name u properties) rest)
        p refl
      ∙ second_group (obj (copy_onto end (field key v auth))) q

-- The normalisations read the copy only.
module _ (readers : Readers) where
  same_pause :
      (minimum_delay maximum_delay : ℕ) (s t : Fields)
      → nested_copy s ≡ nested_copy t
      → normalize_robot_payload readers minimum_delay maximum_delay s
        ≡ normalize_robot_payload readers minimum_delay maximum_delay t
  unfolding normalize_robot_payload
  same_pause minimum_delay maximum_delay s t e = rw (normalize_robot_payload, e) refl

  same_request :
      (s t : Fields)
      → nested_copy s ≡ nested_copy t
      → normalize_rest_request_payload readers s ≡ normalize_rest_request_payload readers t
  unfolding normalize_rest_request_payload
  same_request s t e = rw (normalize_rest_request_payload, e) refl

  same_wait :
      (s t : Fields)
      → nested_copy s ≡ nested_copy t
      → normalize_wait_field_payload readers s ≡ normalize_wait_field_payload readers t
  unfolding normalize_wait_field_payload
  same_wait s t e = rw (normalize_wait_field_payload, e) refl

-- A form whose bracketed names spell the credentials and the properties of a callback is normalised
-- like the JSON object that nests them, by all three robots: the same payload or the same refusal. The
-- form lists the entries of `auth` first, those of `properties` next and any others after them; each of
-- the two groups has an entry, its names are neither empty nor bracketed themselves, and its values are
-- no mappings.
pub normalize-form :
    (readers : Readers) (minimum_delay maximum_delay : ℕ) (key name : String) (v u : Value)
    (auth properties rest : Fields)
    → IsPlain (field key v auth)
    → IsPlain (field name u properties)
    → (normalize_robot_payload readers minimum_delay maximum_delay
          (as_form key name v u auth properties rest)
        ≡ normalize_robot_payload readers minimum_delay maximum_delay
            (as_json key name v u auth properties rest))
      × (normalize_rest_request_payload readers (as_form key name v u auth properties rest)
          ≡ normalize_rest_request_payload readers (as_json key name v u auth properties rest))
      × (normalize_wait_field_payload readers (as_form key name v u auth properties rest)
          ≡ normalize_wait_field_payload readers (as_json key name v u auth properties rest))
normalize-form readers minimum_delay maximum_delay key name v u auth properties rest p q =
    let e = nested_copy-form key name v u auth properties rest p q in
    (
      same_pause readers minimum_delay maximum_delay _ _ e,
      same_request readers _ _ e,
      same_wait readers _ _ e,
    )
