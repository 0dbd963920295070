-- ===== src/Tests.antt =====
-- Tests of the definitions and uses of the theorems at concrete inputs.
mod Resident
mod Payloads
mod Worker
mod Drafts
mod Generation
mod Batching
mod Json
mod Frames
mod Activations
mod Requests
mod MediaTypes
