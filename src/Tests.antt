-- ===== src/Tests.antt =====
-- Runs of the model on a small file system, and the theorems at concrete inputs.
mod Toy
mod Replicas
mod Requests
mod Sessions
mod Choices
mod Trees
mod Copies
mod Files
mod Lookups
mod Mounting
mod Starting
mod Wired
mod Sockets
