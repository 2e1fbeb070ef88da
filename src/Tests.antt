-- ===== src/Tests.antt =====
-- Runs of the model on concrete inputs, and the stated properties at concrete inputs.
mod Runs
mod Setting
mod Witnesses
mod Parts
mod Settings
mod Tools
mod Crypto
mod Engines
