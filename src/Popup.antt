-- ===== src/Popup.antt =====
-- src/popup: where the card goes.
pub mod Placement
