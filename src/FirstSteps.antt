-- ===== src/FirstSteps.antt =====
-- The first programs of 00_tutorials that transfer: 05 sends an HTTP request, and 06 receives the
-- response too.
pub mod Send
pub mod Receive
pub mod Single
