-- ===== src/Buttons.antt =====
-- app/models/workflow_button.py and app/api/workflow_buttons.py: the buttons that start a workflow.
pub mod Model
pub mod Launches
pub mod Handlers
pub mod Limits
mod Scenarios
