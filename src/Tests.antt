-- ===== src/Tests.antt =====
-- Theorems at concrete inputs, and runs that can be followed in the source, a module for each part.
mod Space
mod Date
mod Body
mod Session
mod Connections
mod Words
mod Address
mod Fields
mod Envelope
mod MemPool
mod Content
mod Text
