-- ===== src/Tests.antt =====
-- Runs of the definitions on concrete inputs, and each theorem at an input that meets its hypotheses.
mod Samples
mod Names
mod Handlers
mod Standby
mod Products
mod Panel
mod Video
mod Audio
mod Saver
mod Force
