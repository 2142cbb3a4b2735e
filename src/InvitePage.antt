-- ===== src/InvitePage.antt =====
-- The invitation landing page, relay/deploy/landing/contact/invite/invite.js: the links, the
-- short-code row, the copy buttons and the language switch, over a record of the page's elements.
pub mod Link
pub mod Target
pub mod Copy
pub mod Language
mod Examples
