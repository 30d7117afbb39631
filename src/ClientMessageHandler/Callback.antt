-- ===== src/ClientMessageHandler/Callback.antt =====
-- What the callback of an asynchronous request is told.
use dcom.Base.{
  ℕ, suc, ◌-◌, ◌^◌, ◌<◌, ◌≡◌, refl, ap, ◌∙◌, false, List, [], ◌∷◌, none, some, Bytes, length,
  get_or, arith, Option, ℤ, ◌==◌, eq_ℤ, ok, get_or,
}
use dcom.ClientMessageHandler.{
  ClientMessageHandler, ThreadData, send_request, handle_with, handle_async_request,
}
use dcom.Constants.{error_success, error_parameter_invalid, invalid_handle_value, handle_count}
use dcom.Format.{Format, Platform}
use dcom.Marshaller.Last.{get-last_function_parameter}
use dcom.Marshaller.{
  empty_marshaller, get_object_id, get_function_parameter, get_last_function_parameter_index,
}
use dcom.NamedPipe.{PipeApi}
use dcom.Protocol.{message, get_object_id-message}
use dcom.ThreadUtils.{ThreadApi}

-- The last of the parameters `q ∷ params`.
abbrev pub last_of : Bytes → List Bytes → Bytes
last_of q params = get_or (q ∷ params) (length params) []

module _ {W T : Type 0} (api : PipeApi W) (threads : ThreadApi W) (p : Platform) (f : Format T)
    (blank : T) where
  read_last :
      (e : ℤ) (a : ℕ) (d : ℤ) (q : Bytes) (params : List Bytes)
      → length params < 2 ^ 30
      → get_function_parameter f
          (message p e a d (q ∷ params))
          (get_last_function_parameter_index (message p e a d (q ∷ params)))
          blank
        ≡ ok (f.extract blank (last_of q params))
  read_last e a d q params short =
      get-last_function_parameter f (message p e a d (q ∷ params)) refl (omega arith) blank
        (omega arith)
      ∙ (let more : (suc (suc (suc (suc (length params)))) == 3) ≡ false = ground arith in
          rw more refl)
      ∙ (let place : suc (suc (suc (suc (length params)))) - 1 ≡ suc (suc (suc (length params))) =
            omega arith in
          ap (λ i. ok (f.extract blank (get_or (message p e a d (q ∷ params)).all_parameters i [])))
            place)

  empty_object_id : get_object_id p empty_marshaller ≡ ok invalid_handle_value
  unfolding get_object_id empty_marshaller
  empty_object_id = refl

  module _ (callbacks : ℕ → ℤ → T → ℕ → ℕ → W → W) (td : ThreadData)
      (has_cb : (td.cb_fn == 0) ≡ false) (handler handler' : ClientMessageHandler)
      (given : handler.thread_data ≡ some td) (w w' : W) where
    with_data :
        handle_async_request api threads p f blank callbacks handler w
        ≡ handle_with api threads p f blank callbacks td handler w
    unfolding handle_async_request
    with_data =
        ap
          (λ (d : Option ThreadData). elim d [
            | none ↦ ok (error_parameter_invalid, handler, w)
            | some td ↦ handle_with api threads p f blank callbacks td handler w
          ])
          given

    -- A response that arrived, of the protocol's form and with at least one parameter (and fewer than
    -- `2 ^ 30`), is handed to the callback that the handler holds, once, as the last of its parameters with the object id of
    -- the response. The error code that the callback gets is success, whatever error `e` the
    -- response reports. The thread's data is given up.
    pub callback_on_response :
        (e : ℤ) (a : ℕ) (d : ℤ) (q : Bytes) (params : List Bytes)
        → a < handle_count
        → length params < 2 ^ 30
        → send_request api threads handler handler.request empty_marshaller w
          ≡ ok (error_success, handler', message p e a d (q ∷ params), w')
        → handle_async_request api threads p f blank callbacks handler w
          ≡ ok (
            error_success,
            record handler' { thread_data = none },
            callbacks td.cb_fn error_success (f.extract blank (last_of q params)) a td.cb_data w',
          )
    unfolding handle_with
    callback_on_response e a d q params ha short sent = rw (
      with_data,
      sent,
      read_last e a d q params short,
      get_object_id-message p e a d (q ∷ params) ha,
      has_cb,
    )

    -- A request that failed on its way is reported to the callback, once, with the error of the way,
    -- the blank value, and the invalid handle in place of the object id of the request.
    pub callback_on_failure :
        (code : ℤ)
        → eq_ℤ code error_success ≡ false
        → send_request api threads handler handler.request empty_marshaller w
          ≡ ok (code, handler', empty_marshaller, w')
        → handle_async_request api threads p f blank callbacks handler w
          ≡ ok (
            code,
            record handler' { thread_data = none },
            callbacks td.cb_fn code blank invalid_handle_value td.cb_data w',
          )
    unfolding handle_with
    callback_on_failure code failed sent = rw (with_data, sent, failed, empty_object_id, has_cb)
