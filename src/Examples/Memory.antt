-- ===== src/Examples/Memory.antt =====
-- A simple runtime: what is built is laid out in words, one after the other.
pub mod Codes
mod Layout
mod Tables
pub mod Runtime
mod Building
mod Reads
pub mod Lawful
