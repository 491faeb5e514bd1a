-- ===== src/Tests.antt =====
-- Runs at concrete inputs.
mod Data
mod Accounts
mod Database
mod Controls
mod Selections
mod Promotions
mod Releases
mod Completions
mod Recovery
mod Explorations
mod Steps
mod Loading
