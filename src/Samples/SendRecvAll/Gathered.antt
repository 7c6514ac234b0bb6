-- ===== src/Samples/SendRecvAll/Gathered.antt =====
-- What send_recv_all answers on this server.
use lswasm.Base.{
  ℕ, ◌≡◌, refl, sym, subst, ◌∙◌, Bool, true, false, List, [], ◌∷◌, ◌++◌, append-nil, append_assoc,
  arith,
}
use lswasm.Base.{if◌then◌else◌}
use lswasm.Base.{length, is_empty}
use lswasm.Base.{Bytes, codes}
use lswasm.ResponseSink.{ResponseSink}
use lswasm.ResponseSink.Framing.{concat}
use lswasm.Context.{LsWasmContext, send_local_response, set_request_body, set_end_of_stream}
use lswasm.Context.Host.{HostSide, get_buffer}
use lswasm.Samples.{FilterApi, end_line, ends_line}
use lswasm.Samples.Lawful.{IsLawful, with_body, is_nil}
use lswasm.Samples.SendRecvAll.{
  SendRecvAllContext, new_context, State, section_text, on_request_headers, gather, response_text,
  on_request_body,
}

-- What follows the section of the headers: the body with a line end, or what stands in its place.
abbrev pub closing : Bytes → Bytes
closing body = if is_empty body then codes "(empty body)\n" else end_line body

abbrev pub gathered : List Bytes → Bytes
gathered [] = codes "(no body)\n"
gathered (part ∷ parts) = closing (concat (part ∷ parts))

module _ {S : Type 0} (api : FilterApi (LsWasmContext S)) where
  -- The parts of the body, one call of `onRequestBody` for each, the last with the end of the stream.
  abbrev pub feed : State (LsWasmContext S) → List Bytes → State (LsWasmContext S)
  feed st [] = st
  feed st (body ∷ rest) =
      let c = with_body st.1 body (is_nil rest) in
      feed (on_request_body api st.0 c (length body) (is_nil rest)).1 rest

  -- A request as `handle_request` passes it on: the headers, and the parts of the body if there are any.
  abbrev pub serve : LsWasmContext S → List Bytes → State (LsWasmContext S)
  serve c parts = feed (on_request_headers api new_context c (is_nil parts)).1 parts

-- The context asks for a local response with status 200, no headers and this body.
pub record Answers {S : Type 0} (c : LsWasmContext S) (text : Bytes) : Type 0 where
  pub asked : c.has_local_response ≡ true
  pub code : c.local_response_code ≡ 200
  pub body : c.local_response_body ≡ text
  pub headers : c.local_response_headers ≡ []

ends_line-append :
    (xs : Bytes) (y : ℕ) (ys : Bytes) → ends_line (xs ++ (y ∷ ys)) ≡ ends_line (y ∷ ys)
unfolding ends_line
ends_line-append [] y ys = refl
ends_line-append (x ∷ []) y ys = refl
ends_line-append (x ∷ z ∷ xs) y ys = ends_line-append (z ∷ xs) y ys

response_text_lem :
    (f : SendRecvAllContext) → response_text f ≡ f.header_section ++ closing f.body_accum
unfolding response_text end_line
response_text_lem f = go f.body_accum
  where
    go :
        (b : Bytes)
        → (if is_empty b
            then f.header_section ++ codes "(empty body)\n"
            else end_line (f.header_section ++ b))
          ≡ f.header_section ++ closing b
    go [] = refl
    go (y ∷ ys) = ground (
      arith,
      ends_line-append f.header_section y ys,
      append_assoc f.header_section (y ∷ ys) (10 ∷ []),
    )

module _ {S : Type 0} (k : ResponseSink S) (h : HostSide) (api : FilterApi (LsWasmContext S))
    (law : IsLawful k h api) where
  gather_lem :
      (f : SendRecvAllContext) (c : LsWasmContext S) (body : Bytes) (eos : Bool)
      → gather api f (with_body c body eos) (length body)
        ≡ record f { body_accum = f.body_accum ++ body }
  unfolding gather set_request_body set_end_of_stream get_buffer
  gather_lem f c [] eos = ground (arith, append-nil f.body_accum)
  gather_lem f c (b ∷ body) eos = ground (arith, law.buffered (with_body c (b ∷ body) eos))

  answered-Answers :
      (c : LsWasmContext S) (text : Bytes)
      → Answers (api.send_local_response c 200 [] text []).1 text
  unfolding send_local_response
  answered-Answers c text =
      rw (law.answered c 200 [] text [])
        (record { asked = refl; code = refl; body = refl; headers = refl })

  feed-Answers :
      (f : SendRecvAllContext) (c : LsWasmContext S) (body : Bytes) (rest : List Bytes)
      → Answers
          (feed api (f, c) (body ∷ rest)).1
          (f.header_section ++ closing (f.body_accum ++ concat (body ∷ rest)))
  unfolding on_request_body
  feed-Answers f c body [] =
      let f' = gather api f (with_body c body true) (length body) in
      let text : response_text f' ≡ f.header_section ++ closing (f.body_accum ++ (body ++ [])) =
        response_text_lem f' ∙ rw (gather_lem f c body true, append-nil body) refl in
      subst (Answers (feed api (f, c) (body ∷ [])).1) text
        (answered-Answers (with_body c body true) (response_text f'))
  feed-Answers f c body (next ∷ rest) =
      let c' = with_body c body false in
      let g : SendRecvAllContext = record f { body_accum = f.body_accum ++ body } in
      let whole = concat (next ∷ rest) in
      subst
        (λ (t : SendRecvAllContext).
          Answers (feed api (t, c') (next ∷ rest)).1
            (f.header_section ++ closing (f.body_accum ++ (body ++ whole))))
        (sym (gather_lem f c body false))
        (subst (λ t. Answers (feed api (g, c') (next ∷ rest)).1 (f.header_section ++ closing t))
          (append_assoc f.body_accum body whole) (feed-Answers g c' next rest))

  -- However the body was cut: the answer is a local response with status 200, whose body is the section
  -- of the environment and the headers, and then the whole request body, closed by a line end ("(empty
  -- body)" if nothing came, "(no body)" if none was announced).
  pub serve-gathers :
      (c : LsWasmContext S) (parts : List Bytes)
      → Answers (serve api c parts).1 (section_text api c ++ gathered parts)
  unfolding on_request_headers new_context
  serve-gathers c [] = answered-Answers c _
  serve-gathers c (part ∷ parts) =
      feed-Answers (record new_context { header_section = section_text api c }) c part parts
