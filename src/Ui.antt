-- ===== src/Ui.antt =====
-- The forms of the page: examples/hello-spanreed/client/src/{common/Button.tsx, ChatBox.tsx,
-- ConnectionStateComponent.tsx, Console.tsx}.
pub mod Button
pub mod ChatBox
pub mod Setup
pub mod Console
pub mod Html
pub mod DemoPage
