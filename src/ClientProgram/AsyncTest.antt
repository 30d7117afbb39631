-- ===== src/ClientProgram/AsyncTest.antt =====
-- `AsyncSendAndReceivePrimitiveDataTypes` of Client/Client.cpp, and what it writes. The two static
-- variables stand in the memory of the client, at the addresses that are passed with the callbacks;
-- these run in the threads of the requests, and store there. What the callbacks themselves write to the console is not part of the text.
use dcom.Base.{
  ℕ, Bool, not, [], ◌++◌, Option, none, some, Bytes, codes, ◌==◌, if◌then◌else◌, ℤ, Outcome, ok,
}
use dcom.ClientMessageHandler.{ThreadData}
use dcom.ClientProgram.{internal_error, try_next, callback_print}
use dcom.Connection.{Connection}
use dcom.Format.{Format, Platform}
use dcom.RpcClient.{
  ParameterType, int_type, string_type, other_type, new_client, destroy_client,
  send_primitive_data_async, get_primitive_data_async, RpcClient,
}
use dcom.Stream.{print_int, print_nat}
use dcom.ThreadUtils.{ThreadApi}

-- The name of the type; `is_same` knows two.
unfoldable pub async_type_name : ParameterType → Bytes
async_type_name int_type = codes " type int "
async_type_name string_type = codes " type string "
async_type_name other_type = []

-- `CallbackPrint` as the callback of a request: what it does to the world, where `write` stores a value
-- at an address; the last number is the address `data`.
unfoldable pub stored_by_callback :
    {W T : Type 0} → Platform → Format T → ℕ → (ℕ → T → W → W) → ℤ → T → ℕ → ℕ → W → W
unfolding callback_print
stored_by_callback p f thread_id write error_code output object_id address w =
    elim (callback_print p f thread_id error_code output object_id (not (address == 0))).1 [
      | none ↦ w
      | some copy ↦ write address copy w
    ]

-- What the function at an address does: `CallbackPrint` stands at `print_at`, other functions elsewhere.
unfoldable pub program_callbacks :
    {W T : Type 0}
    → Platform
    → Format T
    → ℕ
    → (ℕ → T → W → W)
    → ℕ
    → (ℕ → ℤ → T → ℕ → ℕ → W → W)
    → ℕ
    → ℤ
    → T
    → ℕ
    → ℕ
    → W
    → W
unfolding stored_by_callback
program_callbacks p f thread_id write print_at elsewhere fn error_code output object_id address w =
    if fn == print_at
    then stored_by_callback p f thread_id write error_code output object_id address w
    else elsewhere fn error_code output object_id address w

-- What the test names by address: `CallbackPrint` for a handle and for its type, and its static
-- variables; and what the memory of the client holds at an address.
pub record Statics (W T : Type 0) : Type 0 where
  pub print_id : ℕ
  pub print_result : ℕ
  pub remote_object_id_at : ℕ
  pub opresult_at : ℕ
  pub ids : W → ℕ → ℕ
  pub results : W → ℕ → T

-- The line that it writes after each wait, without what it writes of the result.
unfoldable pub waited_line {ℓ} : {T : Type ℓ} → Format T → ℤ → T → Bytes
waited_line f error_code sent =
    codes "\t"
    ++ codes "[ErrorCode] "
    ++ print_int error_code
    ++ codes " [Input] "
    ++ f.print sent
    ++ codes " [Output] after imposed 5 seconds wait - "

module _ (p : Platform) {W : Type 0} (net : Connection W) (threads : ThreadApi W) {T : Type 0}
    (type : ParameterType) (f : Format T) (statics : Statics W T) where
  -- `&CallbackPrint<HANDLE>, &remoteObjectID` and `CallbackPrint<T>, &opresult`.
  abbrev pub send_callback : ThreadData
  send_callback = record { cb_fn = statics.print_id; cb_data = statics.remote_object_id_at }

  abbrev pub read_callback : ThreadData
  read_callback = record { cb_fn = statics.print_result; cb_data = statics.opresult_at }

  -- The second half, once the first callback has stored a handle.
  unfoldable pub receive_async : T → Bytes → ℕ → RpcClient → W → Outcome (Bytes × Option W)
  unfolding try_next waited_line
  receive_async sent written object_id client w =
      let out = written ++ codes "\n\t2. [Function] - GetPrimitiveDataAsync() " ++ codes "\n" in
      try_next internal_error
        (get_primitive_data_async p net type f object_id read_callback client w) out
        λ r.
          let woken = threads.sleep r.3 5000 in
          ok (
            out
                ++ waited_line f r.0 sent
                ++ f.print (statics.results woken statics.opresult_at)
                ++ codes "\n",
            some (destroy_client net r.2 woken),
          )

  unfoldable pub async_send_and_receive : ℕ → T → Bool → W → Outcome (Bytes × Option W)
  unfolding try_next async_type_name waited_line receive_async
  async_send_and_receive thread_id sent initialized w =
      let title =
        codes "\n\n************** Asynchronous test - "
        ++ async_type_name type
        ++ codes " [Thread id] - "
        ++ print_nat thread_id
        ++ codes " **************"
        ++ codes "\n"
        ++ codes "\n\t1. [Function] - SendPrimitivecDataAsync() "
        ++ codes "\n" in
      try_next internal_error
        (send_primitive_data_async p net type f sent send_callback (new_client initialized) w) title
        λ r.
          let woken = threads.sleep r.3 5000 in
          let out = title ++ waited_line f r.0 sent in
          if statics.ids woken statics.remote_object_id_at == 0
          then ok (
            out
                ++ codes "NULL object."
                ++ codes "\n"
                ++ codes "Skipping GetPrimitiveDataAsync() due to null object id"
                ++ codes "\n",
            some (destroy_client net r.2 woken),
          )
          else receive_async sent
              (out
                ++ p.handle_format.print (statics.ids woken statics.remote_object_id_at)
                ++ codes "\n")
              (statics.ids woken statics.remote_object_id_at) r.2 woken
