-- ===== src/Lib.antt =====
-- A remote procedure call framework over Windows named pipes, and the remote calculator that is
-- built with it. A client turns a call into a message (an error code, an object id, a disp id and
-- parameters, separated by question marks), sends it over a pipe, and reads the result out of the
-- response. The server reads the message, creates, calls or deletes an object as the message asks,
-- and sends the message back with its error code and parameters replaced.
--
-- The parts, in the order in which they build on each other:
--
--   Base                  lists, texts (lists of byte values) and signed integers over the native
--                         numbers; `Outcome`, a value or a fault. The exceptions that the code may
--                         catch and undefined behaviour (an index out of bounds, a dangling pointer,
--                         a call of a null pointer, a signed overflow) are different faults.
--   Constants             Common/include/Constants.h, and the sizes of the 64-bit Windows ABI.
--   Stream, Format        how a parameter becomes text and is read back: what `TypeToArgument` and
--                         `ArgumentToType` (Common/include/Marshaller.h) use of `std::stringstream`.
--                         The text of a `HANDLE` is up to the compiler's library: `Platform` is a
--                         parameter, with its documented behaviour (a printed pointer is read back
--                         as the same pointer, in at most 32 characters, with no question mark and no
--                         zero byte) as laws. Tests/Machine has a platform that satisfies them.
--   Tokenize              `StringUtils::Tokenize` (Common/include/Utils.h) and the loop that calls it
--                         (`Marshaller::InitHelper`); Tokenize/Split: the tokens are the parts of the
--                         text. The loop runs on fuel, `length + 2` rounds, which are enough.
--   Marshaller            Common/include/Marshaller.h and Common/Marshaller.cpp: the vector of
--                         parameters with its count, and every read, write and conversion.
--                         Marshaller/Access: reading after writing; Marshaller/Wire: the wire format;
--                         Marshaller/Safety: no access outside the vector; Marshaller/Last: the
--                         last parameter. Protocol: messages of the form that the program sends.
--   Calculator            Common/include/Calculator.h, Common/include/CalculatorServer.h and
--                         Server/Calculator.cpp: the interface, its dispatch table and the class.
--   ServerStub            Common/include/ServerStub.h: `Invoke` for a class and for a primitive value.
--   ObjectManager         Common/include/ObjectManager.h and Common/ObjectManager.cpp: the server's
--                         objects. The state is the set of pointers and the heap with the objects
--                         that are alive, which are kept apart because the code lets them differ.
--                         `operator new` is a parameter, `Allocator`: it gives an address that is not
--                         null and not in use, or it throws. ObjectManager/Race: the look-up and
--                         the call as two steps, since the critical section covers the first only.
--                         ObjectManager/Requests, ObjectManager/Creation: the replies.
--                         ObjectManager/Store: the map from handles to values that it implements;
--                         ObjectManager/History: a value over many requests.
--   NamedPipe             Common/NamedPipe.cpp over the functions of the Windows API that it calls,
--                         `PipeApi`, a parameter over a state of the world; NamedPipe/Transfer: the
--                         frame of 512 bytes in which a text travels; NamedPipe/Guards: what the
--                         operations refuse.
--   ThreadUtils, ClientMessageHandler
--                         Common/include/Utils.h, Common/include/ClientMessageHandler.h and
--                         Common/ClientMessageHandler.cpp: one request over a pipe, and the thread of
--                         an asynchronous one; ClientMessageHandler/Polling: a server that lets
--                         the client wait; ClientMessageHandler/Callback: what a callback is told.
--   Logger                `Logger::Log` (Common/include/Utils.h), over `_vsnprintf_s` and the memory.
--                         The loop runs on fuel; 22 buffers are enough below the `DWORD`'s limit.
--   ServerMessageHandler  Common/include/ServerMessageHandler.h and Common/ServerMessageHandler.cpp:
--                         the server's end of a connection; ServerMessageHandler/Exchange and
--                         ClientMessageHandler/Exchange: one exchange of frames, at either end.
--   RpcServer             Common/include/RPCServer.h and Common/RPCServer.cpp: the list of handlers and
--                         the rounds of the loop that waits for clients; RpcServer/AtEnd: the handlers
--                         when the server has stopped; RpcServer/Signal: the exit event then.
--   Connection            the interface between the client and its transport, with the code's own
--                         implementation, the pipe, and what it is compared with, the direct
--                         connection, which hands each request to the server's `ObjectManager`.
--   RpcClient, ClientStub Common/include/RPCClient.h, Common/RPCClient.cpp and
--                         Client/CalculatorClient.h, over any connection.
--   ServerProgram         Server/Server.cpp, over the words of the console. Its loop runs on fuel, a round
--                         for each word and then for each failed read.
--   ClientProgram         Client/Client.cpp with what it writes to the console: the synchronous test of
--                         a primitive type and the callback; ClientProgram/AsyncTest: the asynchronous
--                         test, whose callbacks and static variables are addresses in the client's
--                         memory; ClientProgram/CalculatorTest, ClientProgram/ClassTest: the
--                         calculator's test up to its asynchronous call, and the rest of it;
--                         ClientProgram/Main: the main function. ClientProgram/Transcript,
--                         AsyncTranscript and ClassTranscript: the console where the server answers;
--                         ClientProgram/Unreachable: where no pipe of the server exists.
--   Remote                the whole way of a call: the client's function, the server, and back.
--                         Remote/Link says what is asked of Windows where the client and the server
--                         are two processes at the ends of a pipe; on that, Remote/Pipe compares
--                         the pipe with the direct connection, and Remote/Calls has calls over the
--                         pipe, Remote/Values and Remote/Strings values that are kept on the server
--                         and read over it. Remote/Async: asynchronous requests and their threads.
--                         Remote/Session, Remote/PipeStub: the life of a stub.
--   Tests                 the theorems at concrete inputs.
--
-- Strings are taken to be shorter than a bound a little below `npos`, the largest `size_t`, where a
-- theorem says so. The direct connection is not code: it stands for the server's answer to a request,
-- with no limit of 512 bytes, and Remote/Pipe says when the pipe gives the same, which is for messages
-- of at most 511 bytes with no zero byte (`Fits`). Requests reach the server one after the other.
--
-- The client's callbacks are addresses, which the calls pass on, the handlers keep and their threads
-- call with the caller's data; what the function at an address does is an argument of the thread.
--
-- Not modelled: what the program logs, and that a call of the logger can run out of memory; threads that
-- interleave inside `ProcessRequest`, but for the two steps of ObjectManager/Race, whose iterator is
-- the pointer that it found; that `Stop` or a handler's thread runs while the server's loop waits for a
-- client, but for the thread handle that `Stop` of a handler finds after its sleep; and the order in which
-- the threads of Client/Client.cpp write to the console.
pub mod Base
pub mod Constants
pub mod Stream
pub mod Tokenize
pub mod Format
pub mod Marshaller
pub mod Calculator
pub mod ServerStub
pub mod ObjectManager
pub mod Protocol
pub mod NamedPipe
pub mod ThreadUtils
pub mod Logger
pub mod ClientMessageHandler
pub mod ServerMessageHandler
pub mod Connection
pub mod RpcServer
pub mod ServerProgram
pub mod RpcClient
pub mod ClientStub
pub mod ClientProgram
pub mod Remote
pub mod Tests
