-- ===== src/Server/Lsapi/Sent.antt =====
-- What a response of the LSAPI handler leaves at the library.
use lswasm.Base.{
  ℕ, ◌≡◌, refl, ap, ◌⊎◌, inl, inr, Bool, true, false, not, Option, none, some, [], ◌∷◌, arith,
}
use lswasm.Base.{if◌then◌else◌, Option-cases, Bool-cases}
use lswasm.Base.{is_empty}
use lswasm.Base.{Bytes, codes}
use lswasm.HttpUtils.{HeaderPairs}
use lswasm.HttpUtils.Names.{header_name_eq}
use lswasm.HttpFilter.{ProxyWasm, HttpFilterContext}
use lswasm.ResponseSink.Lsapi.{
  LsapiCalls, LsapiResponseSink, c_str, append_headers, send_headers, write_body, finish_body,
}
use lswasm.Server.Lsapi.{send_all, send_response}

-- A sink over a request of which no call has failed.
abbrev pub is_sound : {R : Type 0} → Option (LsapiResponseSink R) → Bool
is_sound none = false
is_sound (some t) = elim t.req [ none ↦ false | some r ↦ not t.error ]

module _ {R : Type 0} (lsapi : LsapiCalls R) where
  -- The headers appended to a request, in their order, all but Transfer-Encoding.
  abbrev pub appended : HeaderPairs → R → R
  appended [] r = r
  appended ((key, value) ∷ hs) r =
      let r' = (lsapi.append_resp_header r (c_str key) (c_str value)).1 in
      let further = appended hs r' in
      let skipped = appended hs r in
      if header_name_eq key (codes "Transfer-Encoding") then skipped else further

  -- A request after its status, its headers, a body if there is one, and the end.
  abbrev pub responded_with : R → ℕ → HeaderPairs → Bytes → R
  responded_with r code hs body =
      let headed = (lsapi.finalize_resp_headers (appended hs (lsapi.set_resp_status r code))).1 in
      let written = if is_empty body then headed else (lsapi.write headed body).1 in
      (lsapi.flush written).1

  -- Unless a call of the library has failed, the request has got exactly this response.
  abbrev pub HasGot : Option (LsapiResponseSink R) → ℕ → HeaderPairs → Bytes → Type 0
  HasGot o code hs body =
      (is_sound o ≡ false)
      ⊎ ((r : R) × (o
            ≡ some (record { req = some (responded_with r code hs body); error = false })))

  append_headers_lem :
      (hs : HeaderPairs) (r : R)
      → (append_headers lsapi hs r).0 ≡ true
      → (append_headers lsapi hs r).1 ≡ appended hs r
  unfolding append_headers
  append_headers_lem [] r e = refl
  append_headers_lem ((k, v) ∷ hs) r e = ground (
    arith,
    e,
    append_headers_lem hs r,
    append_headers_lem hs (lsapi.append_resp_header r (c_str k) (c_str v)).1,
  )

  -- The first call of the three, over a request without an error.
  send_headers_lem :
      (s : LsapiResponseSink R) (r : R) (code : ℕ) (hs : HeaderPairs)
      → s.req ≡ some r
      → s.error ≡ false
      → ((send_headers lsapi s code hs false).1.error ≡ true)
        ⊎ ((send_headers lsapi s code hs false).1 ≡ record {
          req = some (lsapi.finalize_resp_headers (appended hs (lsapi.set_resp_status r code))).1;
          error = false;
        })
  unfolding send_headers
  send_headers_lem s r code hs e f =
      ground (arith, e, f, append_headers_lem hs (lsapi.set_resp_status r code))

  body_lem :
      (t : LsapiResponseSink R) (r : R) (body : Bytes)
      → t.req ≡ some r
      → t.error ≡ false
      → let u = (finish_body lsapi (write_body lsapi t body).1).1 in
        (u.error ≡ true)
        ⊎ (u ≡ record {
          req = some (lsapi.flush (if is_empty body then r else (lsapi.write r body).1)).1;
          error = false;
        })
  unfolding finish_body write_body
  body_lem t r body e f = ground (arith, e, f)

  send_headers_unsound :
      (s : LsapiResponseSink R) (code : ℕ) (hs : HeaderPairs)
      → is_sound (some s) ≡ false
      → is_sound (some (send_headers lsapi s code hs false).1) ≡ false
  unfolding send_headers
  send_headers_unsound s code hs e = ground (arith, e)

  body_unsound :
      (s : LsapiResponseSink R) (body : Bytes)
      → is_sound (some s) ≡ false
      → is_sound (some (finish_body lsapi (write_body lsapi s body).1).1) ≡ false
  unfolding write_body finish_body
  body_unsound s body e = ground (arith, e)

  error-is_sound : (s : LsapiResponseSink R) → s.error ≡ true → is_sound (some s) ≡ false
  error-is_sound s e = ground (arith, e)

  is_sound_parts :
      (s : LsapiResponseSink R)
      → is_sound (some s) ≡ true
      → (s.error ≡ false) × ((r : R) × (s.req ≡ some r))
  is_sound_parts s e = elim (Option-cases s.req) [
    | inl none_left ↦ absurd (ground (arith, none_left, e))
    | inr (r, h) ↦ (ground (arith, h, e), (r, h))
  ]

  module _ (host : ProxyWasm (LsapiResponseSink R)) where
    send_all-HasGot :
        (s : LsapiResponseSink R) (code : ℕ) (hs : HeaderPairs) (body : Bytes)
        → HasGot (some (send_all lsapi host s code hs body)) code hs body
    unfolding send_all
    send_all-HasGot s code hs body =
        let t = (send_headers lsapi s code hs false).1 in
        elim (Bool-cases (is_sound (some s))) [
          | inr unsound ↦ inl (body_unsound t body (send_headers_unsound s code hs unsound))
          | inl sound ↦
              let (fine, (r, has_req)) = is_sound_parts s sound in
              let headed =
                (lsapi.finalize_resp_headers (appended hs (lsapi.set_resp_status r code))).1 in
              elim (send_headers_lem s r code hs has_req fine) [
                | inl failed ↦ inl (body_unsound t body (error-is_sound t failed))
                | inr done ↦
                    elim (body_lem t headed body (ap (λ u. u.req) done) (ap (λ u. u.error) done)) [
                      | inl failed ↦ inl (error-is_sound _ failed)
                      | inr got ↦ inr (r, ap (λ u. some u) got)
                    ]
              ]
        ]

    pub send_response-HasGot :
        (f : HttpFilterContext (LsapiResponseSink R)) (code : ℕ) (hs : HeaderPairs) (body : Bytes)
        → HasGot (send_response lsapi host f code hs body).sink code hs body
    unfolding send_response
    send_response-HasGot f code hs body = go f.sink refl
      where
        go :
            (o : Option (LsapiResponseSink R))
            → f.sink ≡ o
            → HasGot
                (elim o as (λ _. HttpFilterContext (LsapiResponseSink R)) [
                  | none ↦ f
                  | some s ↦ record f { sink = some (send_all lsapi host s code hs body) }
                ]).sink
                code
                hs
                body
        go none e = inl (ap is_sound e)
        go (some s) e = send_all-HasGot s code hs body
