-- ===== src/Tests.antt =====
-- Runs of the model at concrete inputs, and each theorem at one.
mod Play
mod Devices
mod Json
mod Stage
mod Tokens
mod Shell
