-- ===== src/Tests.antt =====
-- Concrete runs of the modelled code: the theorems applied where their conditions hold.
mod Run
mod Wiki
mod Pages
mod Changes
mod Claims
mod Stream
mod Sync
mod Http
mod Assistant
mod Localize
mod Messages
