-- ===== src/Examples.antt =====
-- Tests of the model at concrete inputs, a module for each part of the program.
mod Codec
mod Causes
mod Ledgers
mod Proving
mod Traffic
mod Events
mod Commands
mod Locks
mod Dialled
mod Traced
mod Laboratory
mod Refusing
