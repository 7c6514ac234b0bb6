-- ===== src/HttpFilter/Pseudo.antt =====
-- The pseudo headers that a filter finds.
use lswasm.Base.{◌≡◌, refl, ap, ◌∙◌, ◌⊎◌, Bool, true, false, not, ◌&&◌, ◌||◌, [], ◌∷◌, ◌++◌, arith}
use lswasm.Base.{if◌then◌else◌}
use lswasm.Base.{is_empty}
use lswasm.Base.{Bytes, codes}
use lswasm.HttpUtils.{HeaderPairs}
use lswasm.HttpUtils.Names.{header_name_eq}
use lswasm.Context.HeaderMaps.{find_value}
use lswasm.HttpFilter.{HttpData, has, host_of, pseudo_headers, synthesize_pseudo_headers}
use lswasm.HttpFilter.Lookup.{
  optional, has-append, find_value-append, has-optional, has_congruent, find_value-optional,
  host_of_lem, find_value-skip,
}

-- The four names differ.
abbrev Distinct : Type 0
Distinct =
    (header_name_eq (codes ":method") (codes ":scheme") ≡ false)
    × (header_name_eq (codes ":path") (codes ":scheme") ≡ false)
    × (header_name_eq (codes ":method") (codes ":authority") ≡ false)
    × (header_name_eq (codes ":path") (codes ":authority") ≡ false)
    × (header_name_eq (codes ":scheme") (codes ":authority") ≡ false)
    × (header_name_eq (codes ":method") (codes ":method") ≡ true)
    × (header_name_eq (codes ":path") (codes ":path") ≡ true)
    × (header_name_eq (codes ":scheme") (codes ":scheme") ≡ true)
    × (header_name_eq (codes ":authority") (codes ":authority") ≡ true)
    × (header_name_eq (codes ":method") (codes ":path") ≡ false)

distinct : Distinct
unfolding header_name_eq
distinct = (refl, refl, refl, refl, refl, refl, refl, refl, refl, refl)

-- What `pseudo_headers` is made of.
abbrev new_method : HttpData → Bool
new_method d = not (has d.request_headers (codes ":method")) && not (is_empty d.method)

abbrev new_path : HttpData → Bool
new_path d = not (has d.request_headers (codes ":path")) && not (is_empty d.path)

abbrev is_missing : HttpData → Bytes → Bool
is_missing d name = not (has d.request_headers name)

abbrev authority_of : HttpData → Bytes
authority_of d = host_of d.request_headers (codes "localhost")

pseudo_headers_lem :
    (d : HttpData)
    → pseudo_headers d
      ≡ optional (new_method d) (codes ":method") d.method
        ++ (optional (new_path d) (codes ":path") d.path
            ++ (optional (is_missing d (codes ":scheme")) (codes ":scheme") (codes "http")
                ++ optional
                    (is_missing d (codes ":authority"))
                    (codes ":authority")
                    (authority_of d)))
unfolding pseudo_headers
pseudo_headers_lem d = refl

has-pseudo_headers :
    (d : HttpData) (name : Bytes)
    → has (pseudo_headers d) name
      ≡ (new_method d && header_name_eq (codes ":method") name)
        || ((new_path d && header_name_eq (codes ":path") name)
            || ((is_missing d (codes ":scheme") && header_name_eq (codes ":scheme") name)
                || (is_missing d (codes ":authority") && header_name_eq (codes ":authority") name)))
has-pseudo_headers d name = simp (pseudo_headers_lem, has-append, has-optional) refl

synthesize_lem :
    (d : HttpData)
    → (synthesize_pseudo_headers d).request_headers ≡ pseudo_headers d ++ d.request_headers
unfolding synthesize_pseudo_headers
synthesize_lem d = go (pseudo_headers d)
  where
    go :
        (pseudo : HeaderPairs)
        → (if not (is_empty pseudo)
            then record d { request_headers = pseudo ++ d.request_headers }
            else d).request_headers
          ≡ pseudo ++ d.request_headers
    go [] = refl
    go (p ∷ ps) = refl

request_line :
    (d : HttpData)
    → ((synthesize_pseudo_headers d).method ≡ d.method)
      × ((synthesize_pseudo_headers d).path ≡ d.path)
unfolding synthesize_pseudo_headers
request_line d = ground arith

has-synthesized :
    (d : HttpData) (name : Bytes)
    → has (synthesize_pseudo_headers d).request_headers name
      ≡ (has (pseudo_headers d) name || has d.request_headers name)
has-synthesized d name =
    rw (synthesize_lem d) (has-append (pseudo_headers d) d.request_headers name)

-- A request whose headers are there already.
complete_headers :
    (e : HttpData)
    → has e.request_headers (codes ":scheme") ≡ true
    → has e.request_headers (codes ":authority") ≡ true
    → (is_empty e.method ≡ true) ⊎ (has e.request_headers (codes ":method") ≡ true)
    → (is_empty e.path ≡ true) ⊎ (has e.request_headers (codes ":path") ≡ true)
    → synthesize_pseudo_headers e ≡ e
unfolding synthesize_pseudo_headers pseudo_headers
complete_headers e s a m p = ground (arith, s, a, m, p)

-- A pseudo header that is added was not there in any spelling.
pseudo_headers_new :
    (d : HttpData) (name : Bytes)
    → has d.request_headers name ≡ true
    → has (pseudo_headers d) name ≡ false
pseudo_headers_new d name h = ground (
  arith,
  h,
  has-pseudo_headers d name,
  has_congruent d.request_headers (codes ":method") name,
  has_congruent d.request_headers (codes ":path") name,
  has_congruent d.request_headers (codes ":scheme") name,
  has_congruent d.request_headers (codes ":authority") name,
)

-- The values of the three pseudo headers that are added under other names.
find_value-method :
    (d : HttpData)
    → new_method d ≡ true
    → find_value (pseudo_headers d) (codes ":method") ≡ d.method
find_value-method d h =
    let (ms, ps, ma, pa, sa, mm, pp, ss, aa, mp) = distinct in
    ap (λ hs. find_value hs (codes ":method")) (pseudo_headers_lem d)
    ∙ ground (
      arith,
      h,
      mm,
      find_value-append (optional (new_method d) (codes ":method") d.method)
          (optional (new_path d) (codes ":path") d.path
            ++ (optional (is_missing d (codes ":scheme")) (codes ":scheme") (codes "http")
                ++ optional (is_missing d (codes ":authority")) (codes ":authority")
                    (authority_of d)))
          (codes ":method"),
      has-optional (new_method d) (codes ":method") d.method (codes ":method"),
      find_value-optional (new_method d) (codes ":method") d.method (codes ":method"),
    )

find_value-path :
    (d : HttpData) → new_path d ≡ true → find_value (pseudo_headers d) (codes ":path") ≡ d.path
find_value-path d h =
    let (ms, ps, ma, pa, sa, mm, pp, ss, aa, mp) = distinct in
    ap (λ hs. find_value hs (codes ":path")) (pseudo_headers_lem d)
    ∙ (find_value-skip (new_method d) _ d.method _ _ mp
        ∙ ground (
          arith,
          h,
          pp,
          find_value-append (optional (new_path d) (codes ":path") d.path)
              (optional (is_missing d (codes ":scheme")) (codes ":scheme") (codes "http")
                ++ optional (is_missing d (codes ":authority")) (codes ":authority")
                    (authority_of d))
              (codes ":path"),
          has-optional (new_path d) (codes ":path") d.path (codes ":path"),
          find_value-optional (new_path d) (codes ":path") d.path (codes ":path"),
        ))

find_value-scheme :
    (d : HttpData)
    → has d.request_headers (codes ":scheme") ≡ false
    → find_value (pseudo_headers d) (codes ":scheme") ≡ codes "http"
find_value-scheme d h =
    let (ms, ps, ma, pa, sa, mm, pp, ss, aa, mp) = distinct in
    ap (λ hs. find_value hs (codes ":scheme")) (pseudo_headers_lem d)
    ∙ (find_value-skip (new_method d) _ d.method _ _ ms
        ∙ (find_value-skip (new_path d) _ d.path _ _ ps
            ∙ ground (
              arith,
              h,
              ss,
              find_value-append
                  (optional (is_missing d (codes ":scheme")) (codes ":scheme") (codes "http"))
                  (optional (is_missing d (codes ":authority")) (codes ":authority")
                    (authority_of d))
                  (codes ":scheme"),
              has-optional (is_missing d (codes ":scheme")) (codes ":scheme") (codes "http")
                  (codes ":scheme"),
              find_value-optional (is_missing d (codes ":scheme")) (codes ":scheme") (codes "http")
                  (codes ":scheme"),
            )))

find_value-pseudo_headers :
    (d : HttpData)
    → has d.request_headers (codes ":authority") ≡ false
    → find_value (pseudo_headers d) (codes ":authority") ≡ authority_of d
find_value-pseudo_headers d h =
    let (ms, ps, ma, pa, sa, mm, pp, ss, aa, mp) = distinct in
    ap (λ hs. find_value hs (codes ":authority")) (pseudo_headers_lem d)
    ∙ (find_value-skip (new_method d) _ d.method _ _ ma
        ∙ (find_value-skip (new_path d) _ d.path _ _ pa
            ∙ (find_value-skip (is_missing d (codes ":scheme")) _ _ _ _ sa
                ∙ ground (
                  arith,
                  h,
                  aa,
                  find_value-optional (is_missing d (codes ":authority")) (codes ":authority")
                      (authority_of d) (codes ":authority"),
                ))))

-- What a filter may rely on. `kept`: pseudo headers come before the headers of the request, which
-- stay. `values`: a header that was there is read as before. `scheme`, `authority`, `method`, `path`:
-- the four are there, the last two where the request line had them; `method_value`,
-- `path_value`, `scheme_value`: one that the request did not have has the value of the request line, or
-- `http`. `host`: without an `:authority` of
-- its own the request has that of its Host header, or `localhost`. `once`: a second time changes
-- nothing.
pub record IsSynthesized (d e : HttpData) : Type 0 where
  pub kept : (pseudo : HeaderPairs) × (e.request_headers ≡ pseudo ++ d.request_headers)
  pub values :
      (name : Bytes)
      → has d.request_headers name ≡ true
      → find_value e.request_headers name ≡ find_value d.request_headers name
  pub scheme : has e.request_headers (codes ":scheme") ≡ true
  pub authority : has e.request_headers (codes ":authority") ≡ true
  pub method : is_empty d.method ≡ false → has e.request_headers (codes ":method") ≡ true
  pub path : is_empty d.path ≡ false → has e.request_headers (codes ":path") ≡ true
  pub method_value :
      has d.request_headers (codes ":method") ≡ false
      → is_empty d.method ≡ false
      → find_value e.request_headers (codes ":method") ≡ d.method
  pub path_value :
      has d.request_headers (codes ":path") ≡ false
      → is_empty d.path ≡ false
      → find_value e.request_headers (codes ":path") ≡ d.path
  pub scheme_value :
      has d.request_headers (codes ":scheme") ≡ false
      → find_value e.request_headers (codes ":scheme") ≡ codes "http"
  pub host :
      has d.request_headers (codes ":authority") ≡ false
      → find_value e.request_headers (codes ":authority") ≡ (
          if has d.request_headers (codes "Host")
          then find_value d.request_headers (codes "Host")
          else codes "localhost")
  pub once : synthesize_pseudo_headers e ≡ e

-- Whatever the request, `synthesizePseudoHeaders` makes of it one that a filter may rely on, as
-- `IsSynthesized` says.
pub synthesize_pseudo_headers-IsSynthesized :
    (d : HttpData) → IsSynthesized d (synthesize_pseudo_headers d)
synthesize_pseudo_headers-IsSynthesized d =
    let (ms, ps, ma, pa, sa, mm, pp, ss, aa, mp) = distinct in
    let e = synthesize_pseudo_headers d in
    let scheme : has e.request_headers (codes ":scheme") ≡ true =
      ground
        (arith, ss, has-synthesized d (codes ":scheme"), has-pseudo_headers d (codes ":scheme")) in
    let authority : has e.request_headers (codes ":authority") ≡ true = ground (
      arith,
      aa,
      has-synthesized d (codes ":authority"),
      has-pseudo_headers d (codes ":authority"),
    ) in
    let method : (is_empty d.method ≡ true) ⊎ (has e.request_headers (codes ":method") ≡ true) =
      ground
        (arith, mm, has-synthesized d (codes ":method"), has-pseudo_headers d (codes ":method")) in
    let path : (is_empty d.path ≡ true) ⊎ (has e.request_headers (codes ":path") ≡ true) =
      ground (arith, pp, has-synthesized d (codes ":path"), has-pseudo_headers d (codes ":path")) in
    let same : (e.method ≡ d.method) × (e.path ≡ d.path) = request_line d in
    record {
      kept = (pseudo_headers d, synthesize_lem d);
      values = λ name h. rw (synthesize_lem d) (
          ground (
            arith,
            h,
            find_value-append (pseudo_headers d) d.request_headers name,
            pseudo_headers_new d name h,
          ));
      scheme = scheme;
      authority = authority;
      method = λ h. ground (arith, h, method);
      path = λ h. ground (arith, h, path);
      method_value = λ h k. rw (synthesize_lem d) (
          ground (
            arith,
            h,
            k,
            mm,
            find_value-append (pseudo_headers d) d.request_headers (codes ":method"),
            find_value-method d (ground (arith, h, k)),
            has-pseudo_headers d (codes ":method"),
          ));
      path_value = λ h k. rw (synthesize_lem d) (
          ground (
            arith,
            h,
            k,
            pp,
            find_value-append (pseudo_headers d) d.request_headers (codes ":path"),
            find_value-path d (ground (arith, h, k)),
            has-pseudo_headers d (codes ":path"),
          ));
      scheme_value = λ h. rw (synthesize_lem d) (
          ground (
            arith,
            h,
            ss,
            find_value-append (pseudo_headers d) d.request_headers (codes ":scheme"),
            find_value-scheme d h,
            has-pseudo_headers d (codes ":scheme"),
          ));
      host = λ h. rw (synthesize_lem d) (
          ground (
            arith,
            h,
            aa,
            find_value-append (pseudo_headers d) d.request_headers (codes ":authority"),
            find_value-pseudo_headers d h,
            has-pseudo_headers d (codes ":authority"),
            host_of_lem d.request_headers (codes "localhost"),
          ));
      once =
          complete_headers e scheme authority (ground (arith, same, method))
            (ground (arith, same, path));
    }
