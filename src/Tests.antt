-- ===== src/Tests.antt =====
-- Runs of the definitions on concrete inputs, and the theorems at inputs that meet their hypotheses.
mod Samples
mod Config
mod Requests
mod Errors
mod Pushes
mod Pools
mod Tokens
mod Recovery
mod Servers
mod Starting
mod Runs
