-- ===== src/Tests.antt =====
-- Runs of the reconcilers against small environments, and each theorem at concrete data.
mod Data
mod Sidecar
mod Controller
mod Pure
mod Access
mod World
mod Grants
