-- ===== src/Fix.antt =====
-- webui/assets/app.js, the repair wizard: `openFix`, `closeFix`, `doFix`, the suggested gateway and
-- the texts that it shows.
pub mod Wizard
pub mod Gateway
pub mod Messages
mod Tests
