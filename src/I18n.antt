-- ===== src/I18n.antt =====
-- webui/assets/i18n.js: the language packs and `t`, the choice of a language, and the document's
-- writing direction.
pub mod Catalog
pub mod Locales
pub mod Browser
pub mod Direction
pub mod Packs
mod Tests
