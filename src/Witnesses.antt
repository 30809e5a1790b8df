-- ===== src/Witnesses.antt =====
-- Concrete runs of the theorems.
mod Data
mod Stores
mod Approvals
mod Services
mod Sessions
mod SessionData
mod Details
mod Api
mod Plugins
