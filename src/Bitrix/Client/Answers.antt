-- ===== src/Bitrix/Client/Answers.antt =====
-- What an answer of the portal is taken for (`_classify_api_error`, `_unknown_error` and
-- `_parse_response` of app/bitrix/client.py), and what `BitrixClient.call` sends.
use Prim.Native.String.{◌++◌}
use mathlib.Core.Path.{subst, sym}
use b24_sinedis.Prelude.{
  ℕ, String, ◌≡◌, refl, Bool, true, false, not, ◌&&◌, Option, none, some, ◌∷◌, arith, Bool-cases,
  is_some, Option-cases, inl, inr, if◌then◌else◌, ◌==◌, comparable_ids, comparable_texts,
}
use b24_sinedis.Value.{Value, str, obj, Fields, get, has, put, get-put}
use b24_sinedis.Runtime.{
  Result, ok, raised, HttpResponse, Env, World, ◌>>=◌, raise, lift, post, read_clock,
}
use b24_sinedis.Bitrix.Exceptions.{
  ApiError, Failure, bitrix, BitrixError, authentication_error, permission_error, rate_limit_error,
  temporary_error, permanent_error, configuration_error,
}
use b24_sinedis.Bitrix.Endpoint.{validate_rest_method, matches_method}
use b24_sinedis.Bitrix.Client.Classify.{
  member, is_server_error, unknown_error, classify_code, authentication_codes, permission_codes,
  rate_limit_codes, temporary_codes, permanent_codes, classify_api_error,
}
use b24_sinedis.Bitrix.Client.Call.{
  BitrixResponse, is_success, is_json, reports_error, raise_error, read_payload, read_fields,
  response_from, optional_int, optional_mapping, parse_response, BitrixClient, call,
}

abbrev pub is_transient : BitrixError → Bool
is_transient (rate_limit_error e) = true
is_transient (temporary_error e) = true
is_transient _ = false

-- The error that a classification carries.
abbrev pub details : BitrixError → Option ApiError
details (authentication_error e) = some e
details (permission_error e) = some e
details (rate_limit_error e) = some e
details (temporary_error e) = some e
details (permanent_error e) = some e
details _ = none

module _ (status : ℕ) (method code : String) (time : Option Fields) where
  -- The error is an API error, its fields are those of the answer, and it may be repeated exactly
  -- when its class is transient; only then it carries a delay.
  abbrev pub Consistent : Option ℕ → BitrixError → Type 0
  Consistent retry_after b =
      (e : ApiError) × (details b ≡ some e)
      × (e.code ≡ code)
      × (e.http_status ≡ status)
      × (e.method ≡ method)
      × (e.retryable ≡ is_transient b)
      × (e.retry_after_seconds ≡ (if is_transient b then retry_after else none))

  unknown-Consistent :
      (retry_after : Option ℕ)
      → Consistent retry_after (unknown_error status method code time retry_after)
  unfolding unknown_error
  unknown-Consistent retry_after = elim (Bool-cases (status == 429)) [
    | inl e ↦ rw (e) (_, refl, refl, refl, refl, refl, refl)
    | inr e ↦ rw (e) elim (Bool-cases (is_server_error status)) [
      | inl f ↦ rw (f) (_, refl, refl, refl, refl, refl, refl)
      | inr f ↦ rw (f) (_, refl, refl, refl, refl, refl, refl)
    ]
  ]

  -- However an error is classified, it keeps the code, the status and the method of the answer, and
  -- it may be repeated exactly when it is a rate limit or a temporary error; only then it has a delay.
  pub classify_code-Consistent :
      (normalized : String) (retry_after : Option ℕ)
      → Consistent retry_after (classify_code status method code time normalized retry_after)
  unfolding classify_code
  classify_code-Consistent normalized retry_after =
      elim (Bool-cases (member normalized authentication_codes)) [
        | inl e ↦ rw (e) (_, refl, refl, refl, refl, refl, refl)
        | inr e1 ↦ rw (e1) elim (Bool-cases (member normalized permission_codes)) [
          | inl e ↦ rw (e) (_, refl, refl, refl, refl, refl, refl)
          | inr e2 ↦ rw (e2) elim (Bool-cases (member normalized rate_limit_codes)) [
            | inl e ↦ rw (e) (_, refl, refl, refl, refl, refl, refl)
            | inr e3 ↦ rw (e3) elim (Bool-cases (member normalized temporary_codes)) [
              | inl e ↦ rw (e) (_, refl, refl, refl, refl, refl, refl)
              | inr e4 ↦ rw (e4) elim (Bool-cases (member normalized permanent_codes)) [
                | inl e ↦ rw (e) (_, refl, refl, refl, refl, refl, refl)
                | inr e5 ↦ rw (e5) (unknown-Consistent retry_after)
              ]
            ]
          ]
        ]
      ]

response_from-ok :
    (status : ℕ) (result : Value) (next total : Option Value) (time : Option Value)
    {v : BitrixResponse}
    → response_from status result
        (optional_int status next)
        (optional_int status total)
        (optional_mapping status time)
      ≡ ok v
    → v.result ≡ result
response_from-ok status result next total time h = ground arith

read_fields-ok :
    (status : ℕ) (payload : Fields) {v : BitrixResponse}
    → read_fields status payload ≡ ok v
    → get "result" payload ≡ some v.result
read_fields-ok status payload {v} h = elim (Option-cases (get "result" payload)) [
  | inl e ↦ ground (arith, e, h)
  | inr (r, e) ↦ ground (
    arith,
    e,
    h,
    response_from-ok status r (get "next" payload) (get "total" payload) (get "time" payload)
        {v = v},
  )
]

-- No classified error is a success.
raise_error-no :
    (b : Result BitrixError) {v : BitrixResponse} {P : Type 0} → raise_error b ≡ ok v → P
raise_error-no (ok b) h = cc
raise_error-no (raised e) h = cc

-- The two tests before the body is read.
both_pass :
    (success json : Bool) (refused : Result BitrixError) (e : Failure)
    (read : Result BitrixResponse) {v : BitrixResponse}
    → (if not success then raise_error refused else if not json then raised e else read) ≡ ok v
    → (success ≡ true) × (json ≡ true) × (read ≡ ok v)
both_pass true true refused e read h = (refl, refl, h)
both_pass true false refused e read h = cc
both_pass false json refused e read h = raise_error-no refused h

-- An object that reports no error, and what is read of it.
abbrev pub IsSuccess : Option Value → BitrixResponse → Type 0
IsSuccess json v =
    (payload : Fields) × (json ≡ some (obj payload))
    × (has "error" payload ≡ false)
    × (get "result" payload ≡ some v.result)

module _ (env : Env) (now : ℕ) (method : String) where
  unreported :
      (r : HttpResponse) (b : Bool) (d : Fields) (read : Result BitrixResponse) {v : BitrixResponse}
      → elim (if b then some d else none) [
        | some payload ↦ raise_error (classify_api_error env now r method payload)
        | none ↦ read
      ]
        ≡ ok v
      → (b ≡ false) × (read ≡ ok v)
  unreported r true d read h = raise_error-no (classify_api_error env now r method d) h
  unreported r false d read h = (refl, h)

  body_read :
      (r : HttpResponse) (json : Option Value) (read : Result BitrixResponse) {v : BitrixResponse}
      → elim (reports_error json) [
        | some payload ↦ raise_error (classify_api_error env now r method payload)
        | none ↦ read
      ]
        ≡ ok v
      → (read ≡ ok v) × (is_some (reports_error json) ≡ false)
  body_read r none read h = (h, refl)
  body_read r (some (obj d)) read {v} h =
      let clean = unreported r (has "error" d) d read h in
      (clean.1, subst (λ b. is_some (if b then some d else none) ≡ false) (sym clean.0) refl)
  body_read r (some _) read h = (h, refl)

  success :
      (status : ℕ) (json : Option Value) {v : BitrixResponse}
      → read_payload status json ≡ ok v
      → is_some (reports_error json) ≡ false
      → IsSuccess json v
  success status (some (obj d)) {v} h clean = (d, refl, ground arith, read_fields-ok status d h)
  success status _ h clean = cc

  -- An answer is a success only if its status is 2xx, it is declared as JSON and its body is an object
  -- without `error` whose `result` is what is returned: a status 200 that reports an error is none.
  pub parse_response-ok :
      (r : HttpResponse) {v : BitrixResponse}
      → parse_response env now method r ≡ ok v
      → (is_success r.status_code ≡ true) × (is_json r.content_type ≡ true) × IsSuccess r.json v
  unfolding parse_response
  parse_response-ok r {v} h =
      let (checked, clean) = body_read r r.json _ h in
      let (status, json, read) = both_pass _ _ _ _ _ checked in
      (status, json, success r.status_code r.json read clean)

module _ (env : Env) (client : BitrixClient) (method : String) (params : Fields) (w : World) where
  abbrev pub sends : Bool
  sends = matches_method method && not (has "auth" params)

  -- A call sends one request, to the address of its method, with the parameters and the token; where
  -- the name is malformed or the parameters hold a token it sends none and raises the configuration error.
  pub call-sends :
      let (r, w') = call env client method params w in
      let body = put "auth" (str client.access_token) params in
      (w'.sent ≡ (
        if sends then record { url = client.endpoint ++ method; body = body } ∷ w.sent else w.sent))
      × (sends ≡ false → r ≡ raised (bitrix configuration_error))
      × (get "auth" body ≡ some (str client.access_token))
  unfolding call validate_rest_method ◌>>=◌ lift raise post read_clock
  call-sends = elim (Bool-cases (matches_method method)) [
    | inl e ↦ rw (e) elim (Bool-cases (has "auth" params)) [
      | inl f ↦ rw (f) (refl, λ s. refl, get-put "auth" "auth" (str client.access_token) params)
      | inr f ↦ rw (f) (refl, λ s. cc, get-put "auth" "auth" (str client.access_token) params)
    ]
    | inr e ↦ rw (e) (refl, λ s. refl, get-put "auth" "auth" (str client.access_token) params)
  ]
