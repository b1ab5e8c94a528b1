-- ===== src/Buttons/Model.antt =====
-- app/models/workflow_button.py, with the settings of app/api/workflow_buttons.py that a button stores.
use b24_sinedis.Prelude.{ℕ, String, Bool, Option, List}
use b24_sinedis.Value.{Fields}

-- ButtonSettings; the JSON column of a button holds what `model_dump` writes of it.
pub record ButtonSettings : Type 0 where
  pub label : String
  pub template_id : ℕ
  pub parameters : Fields
  pub allowed_user_ids : List ℕ
  pub color : String
  pub width : ℕ
  pub height : ℕ
  pub enabled : Bool
  pub confirm : Bool
  pub cooldown_seconds : ℕ
  pub block_until_released : Bool

pub record WorkflowButton : Type 0 where
  pub id : ℕ
  pub portal_id : ℕ
  pub field_name : String
  pub settings : ButtonSettings

pub data LaunchStatus : Type 0 where
  starting started blocked unknown : LaunchStatus

pub record WorkflowLaunch : Type 0 where
  pub id : ℕ
  pub portal_id : ℕ
  pub button_id : ℕ
  pub request_id : ℕ
  pub deal_id : ℕ
  pub user_id : ℕ
  pub template_id : ℕ
  pub status : LaunchStatus
  pub workflow_id : Option String
  pub released_at : Option ℕ
  pub released_by : Option ℕ
  pub created_at : ℕ
