-- ===== src/Remote.antt =====
-- The remote object seen from the client, over a connection that hands each request to the server:
-- what the client's functions return is what the object's own functions compute; and over a named
-- pipe between the two processes.
pub mod Link
pub mod Pipe
pub mod Send
pub mod Add
pub mod Session
pub mod Texts
pub mod Calls
pub mod PipeStub
pub mod Async
pub mod Primitives
pub mod Values
pub mod Strings
