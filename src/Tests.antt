-- ===== src/Tests.antt =====
-- Runs of the definitions on concrete inputs, and the theorems applied at inputs that meet their
-- hypotheses.
mod Conditions
mod Order
mod Policy
mod Traffic
mod Loops
mod Gateway
mod Status
mod Proxy
