-- ===== src/Views.antt =====
-- webui/assets/app.js, the views: the templates of the markup that is put into the document.
pub mod Icons
pub mod Shell
pub mod Account
pub mod Tools
pub mod Security
pub mod Dashboard
pub mod Interfaces
pub mod Diagnose
pub mod Repair
pub mod Settings
pub mod History
pub mod Monitor
pub mod Chart
pub mod Snapshots
pub mod Output
pub mod Markup
pub mod Messages
mod Tests
