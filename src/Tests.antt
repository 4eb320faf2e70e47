-- ===== src/Tests.antt =====
-- Runs of the models on concrete inputs, and the theorems at concrete inputs.
mod Data
mod OnPath
mod OnLog
mod OnProcess
mod OnSuite
mod OnObject
mod OnStart
mod OnCommandLine
