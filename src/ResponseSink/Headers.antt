-- ===== src/ResponseSink/Headers.antt =====
-- What the streaming `sendHeaders` makes of the caller's headers.
use lswasm.Base.{
  ℕ, ◌≡◌, refl, sym, ap₂, subst, ◌∙◌, ◌⊎◌, inl, inr, Bool, true, false, not, ◌&&◌, ◌||◌, none, some,
  [], ◌∷◌, ◌++◌, append-nil, append_assoc, arith,
}
use lswasm.Base.{if◌then◌else◌, Bool-cases, if_cases}
use lswasm.Base.{keep, any_of}
use lswasm.Base.{Bytes, bytes_eq}
use lswasm.HttpUtils.{HeaderPairs, serialize_headers}
use lswasm.HttpUtils.Names.{header_name_eq, lower, header_name_eq_trans}
use lswasm.ResponseSink.Http.{
  HttpResponseSink, normalize, send_headers, write_data, content_length_name,
  transfer_encoding_name, chunked,
}

abbrev pub is_length : Bytes × Bytes → Bool
is_length h = header_name_eq h.0 content_length_name

abbrev pub is_framing : Bytes × Bytes → Bool
is_framing h = header_name_eq h.0 transfer_encoding_name

abbrev pub is_other : Bytes × Bytes → Bool
is_other h = not (is_length h) && not (is_framing h)

-- A Transfer-Encoding other than `chunked`, in any letter case.
abbrev pub is_conflict : Bytes × Bytes → Bool
is_conflict h = is_framing h && not (bytes_eq (lower h.1) chunked)

-- The framing is told by Transfer-Encoding: chunked alone.
pub record IsChunkedOnly (hs : HeaderPairs) : Type 0 where
  pub no_length : any_of is_length hs ≡ false
  pub framed : any_of is_framing hs ≡ true
  pub agreed : any_of is_conflict hs ≡ false

names_differ : header_name_eq content_length_name transfer_encoding_name ≡ false
unfolding header_name_eq
names_differ = refl

one_name : (h : Bytes × Bytes) → is_length h ≡ true → is_framing h ≡ false
one_name h e = header_name_eq_trans h.0 content_length_name transfer_encoding_name e ∙ names_differ

any_of-append :
    (p : Bytes × Bytes → Bool) (xs ys : HeaderPairs)
    → any_of p (xs ++ ys) ≡ (any_of p xs || any_of p ys)
any_of-append p [] ys = refl
any_of-append p (x ∷ xs) ys = ground (arith, any_of-append p xs ys)

keep-append :
    (p : Bytes × Bytes → Bool) (xs ys : HeaderPairs) → keep p (xs ++ ys) ≡ keep p xs ++ keep p ys
keep-append p [] ys = refl
keep-append p (x ∷ xs) ys = ground (arith, keep-append p xs ys)

-- The loop with what it has collected: a conflict stops it, and else all but the lengths is copied.
normalize_lem :
    (hs : HeaderPairs) (saw : Bool) (acc : HeaderPairs)
    → normalize hs saw acc ≡ (
        if any_of is_conflict hs
        then none
        else some (acc ++ keep (λ h. not (is_length h)) hs, saw || any_of is_framing hs))
unfolding normalize
normalize_lem [] saw acc = ground (arith, append-nil acc)
normalize_lem ((k, v) ∷ hs) saw acc = ground (
  arith,
  normalize_lem hs saw acc,
  normalize_lem hs true (acc ++ ((k, v) ∷ [])),
  normalize_lem hs saw (acc ++ ((k, v) ∷ [])),
  one_name (k, v),
  append_assoc acc ((k, v) ∷ []) (keep (λ h. not (is_length h)) hs),
)

-- What is copied, with the header that is added if none of the caller's says how the body is framed.
abbrev framed_headers : HeaderPairs → HeaderPairs
framed_headers hs =
    keep (λ h. not (is_length h)) hs
    ++ (if any_of is_framing hs then [] else (transfer_encoding_name, chunked) ∷ [])

kept_lem :
    (hs : HeaderPairs)
    → any_of is_conflict hs ≡ false
    → let kept = keep (λ h. not (is_length h)) hs in
      (any_of is_length kept ≡ false)
      × (any_of is_framing kept ≡ any_of is_framing hs)
      × (any_of is_conflict kept ≡ false)
      × (keep is_other kept ≡ keep is_other hs)
kept_lem [] e = (refl, refl, refl, refl)
kept_lem (h ∷ hs) e = ground (arith, kept_lem hs, one_name h)

added_lem :
    let added : HeaderPairs = (transfer_encoding_name, chunked) ∷ [] in
    (any_of is_length added ≡ false)
    × (any_of is_framing added ≡ true)
    × (any_of is_conflict added ≡ false)
    × (keep is_other added ≡ [])
unfolding header_name_eq
added_lem = (refl, refl, refl, refl)

framed_headers_lem :
    (hs : HeaderPairs)
    → any_of is_conflict hs ≡ false
    → IsChunkedOnly (framed_headers hs) × (keep is_other (framed_headers hs) ≡ keep is_other hs)
framed_headers_lem hs e = elim (Bool-cases (any_of is_framing hs)) [
  | inl framed ↦ rw (framed, append-nil) (ground (arith, kept_lem hs))
  | inr plain ↦
      let kept = keep (λ h. not (is_length h)) hs in
      let added : HeaderPairs = (transfer_encoding_name, chunked) ∷ [] in
      let k = kept_lem hs e in
      rw plain (
        record {
          no_length = any_of-append is_length kept added ∙ ap₂ ◌||◌ k.0 added_lem.0;
          framed = any_of-append is_framing kept added ∙ ap₂ ◌||◌ (k.1 ∙ plain) added_lem.1;
          agreed = any_of-append is_conflict kept added ∙ ap₂ ◌||◌ k.2 added_lem.2;
        },
        keep-append is_other kept added
            ∙ (ap₂ ◌++◌ k.3 added_lem.3 ∙ append-nil (keep is_other hs)),
      )
]

-- What a streaming call with a connection does: refuse, or write one header block.
abbrev pub Streams : HttpResponseSink → ℕ → HeaderPairs → Bool × HttpResponseSink → Type 0
Streams s status_code hs r =
    ((r.0 ≡ false)
      × (any_of is_conflict hs ≡ true)
      × (r.1 ≡ record s { streaming = true; error = true }))
    ⊎ ((sent : HeaderPairs) × (r.0 ≡ true)
        × (any_of is_conflict hs ≡ false)
        × (r.1 ≡ write_data (record s { streaming = true }) (serialize_headers status_code sent))
        × IsChunkedOnly sent
        × (keep is_other sent ≡ keep is_other hs))

send_headers_lem :
    (s : HttpResponseSink) (status_code : ℕ) (hs : HeaderPairs)
    → s.conn ≡ true
    → send_headers s status_code hs true ≡ (
        if any_of is_conflict hs then (false, record s { streaming = true; error = true }) else (
          true,
          write_data
              (record s { streaming = true })
              (serialize_headers status_code (framed_headers hs)),
        ))
unfolding send_headers
send_headers_lem s status_code hs has_conn =
    ground (arith, normalize_lem hs false [], append-nil (keep (λ h. not (is_length h)) hs))

-- With a connection, a streaming `sendHeaders` fails, writes nothing and records the error exactly if a
-- header asks for another Transfer-Encoding. Else it writes one header block, in which no
-- Content-Length is left, Transfer-Encoding is there and says only `chunked`, and all other headers
-- stand as the caller gave them, in order.
pub send_headers_streaming :
    (s : HttpResponseSink) (status_code : ℕ) (hs : HeaderPairs)
    → s.conn ≡ true
    → Streams s status_code hs (send_headers s status_code hs true)
send_headers_streaming s status_code hs has_conn =
    let e = send_headers_lem s status_code hs has_conn in
    subst (Streams s status_code hs) (sym e) (
      if_cases (Streams s status_code hs) (any_of is_conflict hs) _ _ (λ bad. inl (refl, bad, refl))
        (λ fine.
          let l = framed_headers_lem hs fine in
          inr (framed_headers hs, refl, fine, refl, l.0, l.1)))
