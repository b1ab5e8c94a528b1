-- ===== src/Robots/Payload/Requests.antt =====
-- What the payloads of the two subscription robots satisfy.
use b24_sinedis.Prelude.{ℕ, ◌≤◌, ◌<◌, pos, String, ◌≡◌, refl, Bool, true, false, comparable_ids}
use b24_sinedis.Prelude.Text.{all_char, length}
use b24_sinedis.Value.{Value, obj, str, int, Fields, field, end, has}
use b24_sinedis.Runtime.Results.{Returns, Returns-ok, Returns-raised}
use b24_sinedis.Bitrix.Endpoint.{matches_method}
use b24_sinedis.Jobs.Service.{SubscriptionPayload}
use b24_sinedis.Robots.Payload.Normalize.{Readers, must, is_field_char}
use b24_sinedis.Robots.Payload.Bounds.{IsFull}
use b24_sinedis.Robots.Payload.Recipients.{IsAudience}

pub must-Returns : (b : Bool) → Returns (λ t. b ≡ true) (must b)
must-Returns true = Returns-ok (λ t. true ≡ true) true refl
must-Returns false = Returns-raised (λ t. false ≡ true) _

-- The method's name is well formed, and no parameter replaces the credentials of the portal.
abbrev pub IsMethod : String → Type 0
IsMethod method = matches_method method ≡ true

abbrev pub IsSafe : Fields → Type 0
IsSafe params = has "auth" params ≡ false

module _ (readers : Readers) where
  -- A REST request that is accepted.
  pub record IsRequest (properties : Fields) : Type 0 where
    pub method : String
    pub params : Fields
    pub expression : String
    pub stored :
        properties
        ≡ field "rest_method"
            (str method)
            (field "request_params" (obj params) (field "jsonpath" (str expression) end))
    pub named : IsMethod method
    pub safe : IsSafe params
    pub parsed : readers.parses expression ≡ true

  -- A wait for a field that is accepted.
  pub record IsWait (properties : Fields) : Type 0 where
    pub entity_type_id : ℕ
    pub entity_id : ℕ
    pub field_name : String
    pub poll : ℕ
    pub timeout : ℕ
    pub stored :
        properties
        ≡ field "entity_type_id" (int (pos entity_type_id)) (
            field "entity_id" (int (pos entity_id)) (
              field "field_name" (str field_name) (
                field "poll_interval_seconds"
                  (int (pos poll))
                  (field "timeout_seconds" (int (pos timeout)) end))))
    pub known : (0 < entity_type_id) × (0 < entity_id)
    pub named :
        IsFull field_name
        × (length field_name ≤ 128)
        × (all_char (is_field_char readers) field_name ≡ true)
    pub ranged : (0 < poll) × (poll ≤ 86400) × (0 < timeout) × (timeout ≤ 31536000)

  -- Credentials, and the audience of an error message.
  abbrev pub IsSubscription : SubscriptionPayload → Type 0
  IsSubscription p =
      IsFull p.member_id
      × IsFull p.application_token
      × IsFull p.event_token
      × IsAudience p.error_recipients

  module _ (Q : Fields → Type 0) where
    abbrev Carries : SubscriptionPayload → Type 0
    Carries p = Q p.properties × IsSubscription p
