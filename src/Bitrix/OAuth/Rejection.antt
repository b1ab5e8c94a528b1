-- ===== src/Bitrix/OAuth/Rejection.antt =====
-- Which steps of app/bitrix/oauth.py can raise `BitrixAuthenticationError`, and what it leaves behind.
use b24_sinedis.Prelude.{
  ℕ, ℤ, pos, negsuc, ◌*◌, ◌^◌, String, ◌≡◌, refl, Bool, true, false, not, ◌&&◌, Option, none, some,
  if◌then◌else◌, ◌==◌, comparable_ids, comparable_texts, is_some, ltb, leb, Bool-cases, inl, inr,
}
use b24_sinedis.Prelude.Int.{is_positive}
use b24_sinedis.Prelude.Text.{strip}
use b24_sinedis.Value.{Value, str, int, float, bool, null, obj, arr, Fields, get}
use b24_sinedis.Settings.{second}
use b24_sinedis.Time.{add_delta, from_timestamp, refuse_timestamp}
use b24_sinedis.Runtime.{
  Result, ok, raised, SplitUrl, Exchange, timeout, request_error, response, Env,
}
use b24_sinedis.Bitrix.Exceptions.{
  Failure, bitrix, configuration_error, authentication_error, oauth_configuration_error,
  oauth_temporary_error, oauth_refresh_rejected, value_error,
}
use b24_sinedis.Bitrix.Endpoint.{normalize_client_endpoint}
use b24_sinedis.Bitrix.Client.Classify.{is_server_error}
use b24_sinedis.Bitrix.Client.Call.{BitrixClient, new_client}
use b24_sinedis.Bitrix.OAuth.Numbers.{
  optional_integer, check_integer, positive_optional_int, int_of_stripped, optional_string,
  magnitude,
}
use b24_sinedis.Bitrix.OAuth.Refresh.{
  OAuthRefreshResult, build_oauth_refresh_url, token_expiry, after_now, as_temporary, bind, guarded,
  required, optional_domain, parse_success, parse_refresh,
}

abbrev pub rejects : Failure → Bool
rejects (bitrix (authentication_error e)) = true
rejects _ = false

module _ {A : Type 0} where
  -- A result that is no rejection of the access token.
  abbrev pub clean : Result A → Bool
  clean (ok a) = true
  clean (raised e) = not (rejects e)

pub record Clean {A : Type 0} (r : Result A) : Type 0 where
  pub is_clean : clean r ≡ true

module _ {A : Type 0} where
  pub Clean-ok : (a : A) → Clean (ok a)
  Clean-ok a = record { is_clean = refl }

  pub Clean-raised : (e : Failure) → not (rejects e) ≡ true → Clean {A = A} (raised e)
  Clean-raised e h = record { is_clean = h }

  pub Clean-if : (b : Bool) {r s : Result A} → Clean r → Clean s → Clean (if b then r else s)
  Clean-if true h k = h
  Clean-if false h k = k

  Clean-option :
      {C : Type 0} (o : Option C) {r : Result A} {f : C → Result A}
      → Clean r
      → ((c : C) → Clean (f c))
      → Clean (elim o [ none ↦ r | some c ↦ f c ])
  Clean-option none h k = h
  Clean-option (some c) h k = k c

  Clean-object :
      (v : Value) {r : Result A} {f : Fields → Result A}
      → ((d : Fields) → Clean (f d))
      → Clean r
      → Clean (elim v [ obj d ↦ f d | _ ↦ r ])
  Clean-object (obj d) h k = h d
  Clean-object _ h k = k

temporary_clean : (e : Failure) → not (rejects e) ≡ true → not (rejects (as_temporary e)) ≡ true
temporary_clean value_error h = refl
temporary_clean (bitrix configuration_error) h = refl
temporary_clean (bitrix oauth_configuration_error) h = refl
temporary_clean _ h = h

module _ {A B : Type 0} where
  Clean-bind :
      (r : Result A) {f : A → Result B} → Clean r → ((a : A) → Clean (f a)) → Clean (bind r f)
  Clean-bind (ok a) h k = k a
  Clean-bind (raised e) h k = record { is_clean = h.is_clean }

  Clean-guarded :
      (r : Result A) {f : A → Result B} → Clean r → ((a : A) → Clean (f a)) → Clean (guarded r f)
  Clean-guarded (ok a) h k = k a
  Clean-guarded (raised e) h k = record { is_clean = temporary_clean e h.is_clean }

Clean-normalize :
    (split : String → Option SplitUrl) (s : String) → Clean (normalize_client_endpoint split s)
unfolding normalize_client_endpoint
Clean-normalize split s = Clean-if _ (Clean-raised _ refl) (
    Clean-option (split s) (Clean-raised _ refl)
      λ parsed. Clean-if _ (Clean-raised _ refl) (Clean-ok _))

pub Clean-url :
    (split : String → Option SplitUrl) (s : String) → Clean (build_oauth_refresh_url split s)
unfolding build_oauth_refresh_url
Clean-url split s = Clean-option (split s) (Clean-raised _ refl) λ parsed.
    Clean-option parsed.hostname (Clean-raised _ refl)
      λ host. Clean-if _ (Clean-raised _ refl) (Clean-ok _)

Clean-required : (name : String) (d : Fields) → Clean (required name d)
Clean-required name d =
    Clean-option (optional_string (get name d)) (Clean-raised _ refl) λ s. (Clean-ok _)

Clean-check : (positive : Bool) (s : String) → Clean (check_integer positive s)
Clean-check positive s =
    Clean-option (int_of_stripped s) (Clean-raised _ refl)
      λ z. Clean-if _ (Clean-raised _ refl) (Clean-ok _)

Clean-integer : (positive : Bool) (v : Option Value) → Clean (optional_integer positive v)
unfolding optional_integer
Clean-integer positive none = record { is_clean = refl }
Clean-integer positive (some null) = record { is_clean = refl }
Clean-integer positive (some (bool b)) = record { is_clean = refl }
Clean-integer positive (some (float f)) = record { is_clean = refl }
Clean-integer positive (some (int z)) =
    Clean-if (positive && not (is_positive z)) (Clean-raised _ refl) (Clean-ok _)
Clean-integer positive (some (str s)) =
    Clean-if (s == "") (Clean-ok _) (Clean-check positive (strip s))
Clean-integer positive (some (arr vs)) = record { is_clean = refl }
Clean-integer positive (some (obj d)) = record { is_clean = refl }

Clean-magnitude :
    (r : Result (Option ℤ))
    → Clean r
    → Clean {A = Option ℕ} (elim r [ raised e ↦ raised e | ok z ↦ ok (magnitude z) ])
Clean-magnitude (ok z) h = record { is_clean = refl }
Clean-magnitude (raised e) h = record { is_clean = h.is_clean }

Clean-positive : (v : Option Value) → Clean (positive_optional_int v)
unfolding positive_optional_int
Clean-positive v = Clean-magnitude (optional_integer true v) (Clean-integer true v)

Clean-domain : (v : Option Value) → Clean (optional_domain v)
unfolding optional_domain
Clean-domain none = record { is_clean = refl }
Clean-domain (some null) = record { is_clean = refl }
Clean-domain (some (str s)) = Clean-if _ (Clean-raised _ refl) (Clean-ok _)
Clean-domain (some _) = record { is_clean = refl }

Clean-parse_success :
    (split : String → Option SplitUrl) (d : Fields) (member : String)
    → Clean (parse_success split d member)
unfolding parse_success
Clean-parse_success split d member = Clean-bind _ (Clean-required "access_token" d) λ access.
    Clean-bind _ (Clean-required "refresh_token" d) λ refresh_token.
      Clean-bind _ (Clean-required "member_id" d) λ id.
        Clean-bind _ (Clean-required "client_endpoint" d) λ client.
          Clean-bind _ (Clean-required "server_endpoint" d) λ server.
            Clean-if _ (Clean-raised _ refl) (
              Clean-guarded _ (Clean-normalize split client) λ c.
                Clean-guarded _ (Clean-url split server) λ u.
                  Clean-guarded _ (Clean-normalize split server) λ s.
                    Clean-guarded _ (Clean-positive (get "expires" d)) λ at.
                      Clean-guarded _ (Clean-positive (get "expires_in" d)) λ delay.
                        Clean-if (not (is_some at) && not (is_some delay)) (Clean-raised _ refl) (
                          Clean-guarded _ (Clean-integer false (get "user_id" d)) λ user.
                            Clean-bind _ (Clean-domain (get "domain" d)) λ domain. (Clean-ok _)))

unavailable :
    (status : ℕ)
    → Clean {A = OAuthRefreshResult} (
        raised (
          bitrix
            (if is_server_error status then oauth_temporary_error else oauth_refresh_rejected)))
unavailable status = elim (Bool-cases (is_server_error status)) [
  | inl e ↦ rw (e) (Clean-raised _ refl)
  | inr e ↦ rw (e) (Clean-raised _ refl)
]

pub Clean-parse_refresh :
    (split : String → Option SplitUrl) (e : Exchange) (member : String)
    → Clean (parse_refresh split e member)
unfolding parse_refresh
Clean-parse_refresh split timeout member = record { is_clean = refl }
Clean-parse_refresh split request_error member = record { is_clean = refl }
Clean-parse_refresh split (response r) member = Clean-option r.json (Clean-raised _ refl) λ v.
    Clean-object v
      (λ d. Clean-if _ (unavailable r.status_code) (Clean-parse_success split d member))
      (Clean-raised _ refl)

refused_timestamp : {A : Type 0} (n : ℕ) → Clean {A = A} (raised (refuse_timestamp n))
refused_timestamp n = elim (Bool-cases (leb (2 ^ 63 * second) n)) [
  | inl e ↦ rw (e) (Clean-raised _ refl)
  | inr e ↦ rw (e) (Clean-raised _ refl)
]

Clean-timestamp : (n : ℤ) → Clean (from_timestamp n)
unfolding from_timestamp
Clean-timestamp (pos n) = Clean-if _ (Clean-ok _) (refused_timestamp n)
Clean-timestamp (negsuc n) = Clean-if _ (Clean-ok _) (refused_timestamp _)

Clean-delta : (now n : ℕ) → Clean (add_delta now n)
unfolding add_delta
Clean-delta now n = Clean-if _ (Clean-ok _) (Clean-raised _ refl)

Clean-after : (now : ℕ) (delay : Option ℕ) → Clean (after_now now delay)
Clean-after now none = Clean-raised _ refl
Clean-after now (some n) = Clean-if (ltb 0 n) (Clean-delta now _) (Clean-raised _ refl)

pub Clean-expiry : (expires delay : Option ℕ) (now : ℕ) → Clean (token_expiry expires delay now)
unfolding token_expiry
Clean-expiry none delay now = Clean-after now delay
Clean-expiry (some n) delay now =
    Clean-if (ltb 0 n) (Clean-timestamp (pos (n * second))) (Clean-after now delay)

client_of :
    (r : Result String) (token : String)
    → Clean r
    → Clean {A = BitrixClient} (elim r [
      | raised e ↦ raised e
      | ok endpoint ↦
          if token == ""
          then raised (bitrix configuration_error)
          else ok (record { endpoint = endpoint; access_token = token })
    ])
client_of (ok endpoint) token h = Clean-if _ (Clean-raised _ refl) (Clean-ok _)
client_of (raised e) token h = Clean-raised e h.is_clean

pub Clean-client : (env : Env) (endpoint token : String) → Clean (new_client env endpoint token)
unfolding new_client
Clean-client env endpoint token =
    client_of (normalize_client_endpoint env.urlsplit endpoint) token
      (Clean-normalize env.urlsplit endpoint)
