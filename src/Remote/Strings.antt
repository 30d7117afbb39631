-- ===== src/Remote/Strings.antt =====
-- Strings kept on the server by `SendPrimitiveData` and read by `GetPrimitiveData`, over the pipe.
use mathlib.Core.Path.{subst}
use dcom.Base.{
  Bool-cases, inl, inr, ℕ, suc, ◌+◌, ◌-◌, ◌<◌, ◌≤◌, ◌≡◌, ◌≢◌, refl, ap, ◌∙◌, List, [], ◌∷◌, ◌++◌,
  some, Bytes, length, set, append-nil, All, Lacks, arith, pos, ok, ◌==◌,
}
use dcom.Connection.{pipe_connection}
use dcom.Constants.{error_success, npos, handle_count}
use dcom.Format.{Platform, string_format}
use dcom.Marshaller.Access.{padded}
use dcom.Marshaller.Wire.{of_text-split, get_wire_format-join}
use dcom.Marshaller.{Marshaller, of_text}
use dcom.ObjectManager.Heap.{load_new, contains-insert_self}
use dcom.ObjectManager.Creation.{create_string_reply}
use dcom.ObjectManager.Requests.{call_reply}
use dcom.ObjectManager.{
  Allocator, ObjectManager, process_request, contains, load, e_create_string_disp_id,
}
use dcom.Protocol.{message}
use dcom.Remote.Primitives.{grown}
use dcom.NamedPipe.{PipeApi}
use dcom.Remote.Calls.{IsCompact, pipe_received, pipe_invoke}
use dcom.Remote.Link.{View, Link}
use dcom.Remote.Pipe.{Fits}
use dcom.Remote.Values.{send_answered, get_answered}
use dcom.ServerMessageHandler.{ServerMessageHandler}
use dcom.ThreadUtils.{ThreadApi}
use dcom.RpcClient.{RpcClient, string_type, disp_id_of, send_primitive_data, get_primitive_data}
use dcom.ServerStub.Replies.{invoke_string_reply}
use dcom.ServerStub.{primitive_string}
use dcom.Stream.RoundTrip.{print_int-Lacks, print_int-clean, length-print_int}
use dcom.Stream.{print_int}
use dcom.Tokenize.Split.{
  join, join-Lacks, split_nonempty, split, split_at, split_text, split-join_last, split-Lacks,
  total_length, total_length-split, length-join,
}
use dcom.Tokenize.{wire_delimiter}

tail : List Bytes → List Bytes
tail [] = []
tail (q ∷ rest) = rest

-- The handle takes the place of the second parameter, if the string was cut into more than one.
set_second : (s t : Bytes) (rest : List Bytes) → set (padded 2 (s ∷ rest)) 1 t ≡ s ∷ t ∷ tail rest
unfolding tail
set_second s t [] = refl
set_second s t (q ∷ rest) =
    let e : 2 - suc (suc (length rest)) ≡ 0 = omega arith in
    rw e (ap (λ ps. s ∷ t ∷ ps) (append-nil rest))

tail-short : (rest : List Bytes) → total_length (tail rest) ≤ total_length rest
unfolding tail
tail-short [] = omega arith
tail-short (q ∷ rest) = omega arith

-- The parts of a text have none but its bytes.
split-clean : (z : ℕ) (s : Bytes) → Lacks z s → All (Lacks z) (split s)
unfolding split
split-clean z [] h = (tt, tt)
split-clean z (c ∷ s) h =
    let (q, qs, eq) = split_nonempty s in
    let rest : All (Lacks z) (q ∷ qs) = subst (All (Lacks z)) eq (split-clean z s h.1) in
    elim (Bool-cases (c == wire_delimiter)) [
      | inl e ↦ rw (e, All) (tt, split-clean z s h.1)
      | inr e ↦ rw (e, All, eq) ((h.0, rest.0), rest.1)
    ]

tail-All : (P : Bytes → Type 0) (rest : List Bytes) → All P rest → All P (tail rest)
unfolding tail
tail-All P [] h = tt
tail-All P (q ∷ rest) h = h.1

module _ (p : Platform) where
  -- The text of the request that sends the string `v`.
  abbrev string_request : Bytes → Marshaller
  string_request v = message p (pos 0) 0 e_create_string_disp_id (v ∷ [])

  abbrev request_text : Bytes → Bytes
  request_text v = join (message p (pos 0) 0 e_create_string_disp_id (v ∷ [])).all_parameters

  -- The server reads the parts of the string between question marks as separate parameters.
  request_read :
      (v : Bytes)
      → length v < npos - 200
      → of_text (request_text v) ≡ message p (pos 0) 0 e_create_string_disp_id (split v)
  request_read v short =
      of_text-split (request_text v) (
        omega (
          arith,
          length-join (message p (pos 0) 0 e_create_string_disp_id (v ∷ [])).all_parameters,
          length-print_int (pos 0) (omega arith),
          length-print_int e_create_string_disp_id (omega arith),
          p.handle_short 0 (omega arith),
        ))
      ∙ rw (
          split-join_last
            (print_int (pos 0) ∷ p.handle_format.print 0 ∷ print_int e_create_string_disp_id ∷ []) v
            (
              print_int-Lacks (pos 0),
              ((p.handle_carries 0 (omega arith)).undelimited, (print_int-Lacks (pos 2), tt)),
            ))

  request-Fits : (v : Bytes) → Lacks 0 v → length v ≤ 400 → Fits (request_text v)
  request-Fits v clean short = (
    join-Lacks 0 (message p (pos 0) 0 e_create_string_disp_id (v ∷ [])).all_parameters
        (λ e. absurd (omega arith))
        (
          print_int-clean (pos 0),
          (p.handle_clean 0 (omega arith), (print_int-clean (pos 2), (clean, tt))),
        ),
    omega (
      arith,
      length-join (message p (pos 0) 0 e_create_string_disp_id (v ∷ [])).all_parameters,
      length-print_int (pos 0) (omega arith),
      length-print_int e_create_string_disp_id (omega arith),
      p.handle_short 0 (omega arith),
    ),
  )

module _ {W : Type 0} (p : Platform) (al : Allocator) (client server : PipeApi W)
    (threads : ThreadApi W) (view : View W) (h : ℕ) (handler : ServerMessageHandler)
    (others : W → W) (link : Link p al client server threads view h handler others) (w : W) (b : ℕ)
    (allocated : al.allocate (view.objects w).heap ≡ some b) where
  not_null : b ≢ 0
  not_null e = omega (arith, al.fresh (view.objects w).heap b allocated)

  in_range : b < handle_count
  in_range = (al.fresh (view.objects w).heap b allocated).1

  module _ (v s : Bytes) (rest : List Bytes) (cut : split v ≡ s ∷ rest) (clean : Lacks 0 v)
      (short : length v ≤ 400) (c : RpcClient) where
    abbrev served : ObjectManager
    served = grown (view.objects w) b (primitive_string s)

    parts_lack : All (Lacks wire_delimiter) (s ∷ rest)
    parts_lack = subst (All (Lacks wire_delimiter)) cut (split-Lacks v)

    parts_clean : All (Lacks 0) (s ∷ rest)
    parts_clean = subst (All (Lacks 0)) cut (split-clean 0 v clean)

    parts_short : total_length (s ∷ rest) ≤ length v + 1
    parts_short = omega (arith, total_length-split v, ap total_length cut)

    created_string : IsCompact (s ∷ p.handle_format.print b ∷ tail rest)
    created_string = record {
      undelimited =
          (parts_lack.0, ((p.handle_carries b in_range).undelimited, tail-All _ rest parts_lack.1));
      clean = (parts_clean.0, (p.handle_clean b in_range, tail-All _ rest parts_clean.1));
      short = omega (arith, parts_short, tail-short rest, p.handle_short b in_range);
    }

    kept :
        process_request p al
          (view.objects w)
          (message p (pos 0) 0 e_create_string_disp_id (split v))
        ≡ ok (
          served,
          message p error_success 0 e_create_string_disp_id
              (s ∷ p.handle_format.print b ∷ tail rest),
        )
    kept = rw cut (
        create_string_reply p al (view.objects w) (pos 0) s rest b allocated
        ∙ ap (λ ps. ok (served, message p error_success 0 e_create_string_disp_id ps))
            (set_second s (p.handle_format.print b) rest))

    -- The part in front of the first question mark is kept, and read back.
    pipe_string :
        (t : Bytes)
        → (w₁ w₂ : W) × (send_primitive_data p
              (pipe_connection client threads)
              string_type
              string_format
              v
              c
              w
            ≡ ok (error_success, some b, c, w₁))
          × (get_primitive_data p
                (pipe_connection client threads)
                string_type
                string_format
                b
                t
                c
                w₁
              ≡ ok (error_success, some s, c, w₂))
          × (view.objects w₂ ≡ grown (view.objects w) b (primitive_string s))
    unfolding disp_id_of
    pipe_string t =
        let (w₁, sent, same) =
          pipe_received p al client server threads view h handler others link w served
            (string_request p v) (message p (pos 0) 0 e_create_string_disp_id (split v))
            (request_text p v) 0 error_success e_create_string_disp_id
            (s ∷ p.handle_format.print b ∷ tail rest) (omega arith) (omega arith) (omega arith)
            created_string
            (get_wire_format-join (message p (pos 0) 0 e_create_string_disp_id (v ∷ [])) refl)
            (request-Fits p v clean short) (request_read p v (omega (arith, short))) kept c in
        let (w₂, got, same') =
          pipe_invoke p al client server threads view h handler others link w₁ (view.objects w₁) b
            error_success e_create_string_disp_id [] (s ∷ []) in_range (omega arith) (omega arith)
            (record { undelimited = tt; clean = tt; short = omega arith })
            (record {
              undelimited = (parts_lack.0, tt);
              clean = (parts_clean.0, tt);
              short = omega (arith, parts_short, short);
            })
            (call_reply p al (view.objects w₁) (pos 0) b e_create_string_disp_id [] not_null
              in_range (primitive_string s) (s ∷ []) error_success
              (ap (λ o. contains b o.all_objects) same
                ∙ contains-insert_self b (view.objects w).all_objects)
              (ap (λ o. load b o.heap) same ∙ load_new b (primitive_string s) (view.objects w).heap)
              (invoke_string_reply p (pos 0) b e_create_string_disp_id [] s))
            c in
        (
          w₁,
          w₂,
          send_answered p (pipe_connection client threads) string_type refl string_format c b
              not_null in_range w w₁ v s (tail rest) sent,
          get_answered p (pipe_connection client threads) string_type refl string_format c b
              not_null in_range w₁ w₂ t s got,
          same' ∙ same,
        )

  -- If the server has memory for one more object, a string of at most 400 bytes with no question mark
  -- and no zero byte is kept by `SendPrimitiveData` over the pipe, and read back whole by
  -- `GetPrimitiveData`; the server then holds it.
  pub remote_string :
      (v t : Bytes) (c : RpcClient)
      → Lacks wire_delimiter v
      → Lacks 0 v
      → length v ≤ 400
      → (w₁ w₂ : W) × (send_primitive_data p
            (pipe_connection client threads)
            string_type
            string_format
            v
            c
            w
          ≡ ok (error_success, some b, c, w₁))
        × (get_primitive_data p (pipe_connection client threads) string_type string_format b t c w₁
            ≡ ok (error_success, some v, c, w₂))
        × (view.objects w₂ ≡ grown (view.objects w) b (primitive_string v))
  remote_string v t c lacks clean short = pipe_string v v [] (split_text v lacks) clean short c t

  -- If the server has memory for one more object, a string of at most 400 bytes with a question mark
  -- and no zero byte is cut there: over the pipe both calls report success, and what is kept and
  -- read back is the part in front of the first question mark.
  pub remote_string_cut :
      (v rest t : Bytes) (c : RpcClient)
      → Lacks wire_delimiter v
      → Lacks 0 (v ++ wire_delimiter ∷ rest)
      → length (v ++ wire_delimiter ∷ rest) ≤ 400
      → (w₁ w₂ : W) × (send_primitive_data p
            (pipe_connection client threads)
            string_type
            string_format
            (v ++ wire_delimiter ∷ rest)
            c
            w
          ≡ ok (error_success, some b, c, w₁))
        × (get_primitive_data p (pipe_connection client threads) string_type string_format b t c w₁
            ≡ ok (error_success, some v, c, w₂))
        × (view.objects w₂ ≡ grown (view.objects w) b (primitive_string v))
  remote_string_cut v rest t c lacks clean short =
      pipe_string (v ++ wire_delimiter ∷ rest) v (split rest) (split_at v rest lacks) clean short c
        t
