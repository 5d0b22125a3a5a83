-- ===== src/Examples.antt =====
-- Runs of the model, and the theorems at concrete inputs.
mod Toy
mod Logs
mod Nodes
mod Texts
mod Storage
mod Recovery
mod Pages
mod Service
mod Commands
mod Requests
mod Overlap
