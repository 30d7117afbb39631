-- ===== src/ServerProgram.antt =====
-- Server/Server.cpp: the program that runs the server until the console says to quit. The words that
-- the console has are a list; what the threads of the server do until the last of them was read is
-- an argument, `meanwhile`, and so is what they do to a handler while it is stopped, `yielded`.
use dcom.Base.{
  ℕ, zero, suc, ◌≢◌, Bool, ◌||◌, List, [], ◌∷◌, ◌++◌, Option, some, none, Bytes, codes, text_eq,
  if◌then◌else◌,
}
use dcom.NamedPipe.{PipeApi}
use dcom.RpcServer.{EventApi, RpcServer, new_server, run, stop_server, destroy_server}
use dcom.ServerMessageHandler.{ServerMessageHandler}
use dcom.ThreadUtils.{ThreadApi}

-- Whether the word ends the program.
unfoldable pub quits : Bytes → Bool
quits s = text_eq s (codes "Q") || text_eq s (codes "q")

-- What `cin >> s` reads into the new string: once the words are used up, and `cin` fails, nothing.
unfoldable pub next_word : List Bytes → Bytes × List Bytes
next_word [] = ([], [])
next_word (s ∷ words) = (s, words)

-- The loop, with a bound on its rounds: the words that are left when it ends, or none where the bound
-- is reached.
unfoldable pub read_until_quit : ℕ → List Bytes → Option (List Bytes)
unfolding quits next_word
read_until_quit zero words = none
read_until_quit (suc rounds) words =
    let (s, left) = next_word words in
    let later = read_until_quit rounds left in if quits s then some left else later

abbrev pub OtherWord : Bytes → Type 0
OtherWord s = (s ≢ codes "Q") × (s ≢ codes "q")

module _ {W : Type 0} (api : PipeApi W) (threads : ThreadApi W) (events : EventApi W)
    (meanwhile : RpcServer → W → List ServerMessageHandler × W)
    (yielded : ServerMessageHandler → W → ℕ × W) where
  -- What is written, the server when it is stopped, and the world after its destructor, which runs when
  -- `main` has returned. None where there is no such end: the constructor throws, which nothing
  -- catches, or the loop does not end within its rounds.
  unfoldable pub server_program : ℕ → Bool → List Bytes → W → Option (Bytes × RpcServer × W)
  unfolding read_until_quit
  server_program rounds initialized words w =
      let (made, server, w₁) = new_server threads events initialized w in
      let (running, w₂) = run threads events server w₁ in
      let (handlers, w₃) = meanwhile running w₂ in
      let grown : RpcServer = record running { all_message_handlers = handlers } in
      let (stopped, w₄) = stop_server api threads events yielded grown w₃ in
      let ended = some (
        codes "Server running.....Press Q or q to quit server \n" ++ codes "Server quitting.....\n",
        stopped,
        destroy_server api threads events stopped w₄,
      ) in
      if made then elim (read_until_quit rounds words) [ none ↦ none | some left ↦ ended ] else none
