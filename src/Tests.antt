-- ===== src/Tests.antt =====
-- Concrete inputs: the theorems that the library leads up to, applied where their hypotheses hold,
-- with a `Platform`, an `Allocator` and a Windows of our own.
mod Machine
mod Windows
mod Texts
mod Objects
mod Requests
mod Safety
mod Frames
mod Exchange
mod Reach
mod Server
mod Net
mod Link
mod Logs
mod Values
mod Client
mod ClassTest
mod Unreachable
mod Session
mod Limits
mod Callbacks
