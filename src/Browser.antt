-- ===== src/Browser.antt =====
-- The HTML browser, app/browser.
pub mod Tokenize
pub mod Tree
pub mod Rendering
