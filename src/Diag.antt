-- ===== src/Diag.antt =====
-- webui/assets/app.js, the part that puts the diagnosis backend's English facts into the language
-- of the user interface, and the run of a diagnosis.
pub mod Pattern
pub mod Tables
pub mod Rules
pub mod Translate
pub mod Labels
pub mod Run
mod Tests
