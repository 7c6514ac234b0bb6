-- ===== src/HttpFilter/Chain.antt =====
-- How far the chain of filters goes: up to the first local response.
use lswasm.Base.{
  ◌≡◌, refl, sym, ap, subst, ◌≢◌, ◌⊎◌, inl, inr, Bool, true, false, Option, none, some, List, [],
  ◌∷◌, ◌++◌, arith,
}
use lswasm.Base.{if_cases}
use lswasm.Base.{Bytes}
use lswasm.Context.{LsWasmContext}
use lswasm.HttpFilter.{
  ProxyWasm, HttpFilterContext, init_scope, start_module, start_modules, stop_or,
}
use lswasm.HttpFilter.Phases.{
  Visit, visit_scope, run_phase, request_body_phase, request_trailers_phase, response_headers_phase,
  response_body_phase, response_trailers_phase,
}

nil-ne-append : (before : List Bytes) (m : Bytes) (after : List Bytes) → [] ≢ before ++ (m ∷ after)
nil-ne-append [] m after e = ground (e, arith)
nil-ne-append (b ∷ before) m after e = ground (e, arith)

cons_parts : (m n : Bytes) (xs ys : List Bytes) → m ∷ xs ≡ n ∷ ys → (m ≡ n) × (xs ≡ ys)
cons_parts m n xs ys e = ground (e, arith)

module _ {S : Type 0} where
  abbrev pub is_answered : HttpFilterContext S → Bool
  is_answered f = f.http_data.has_local_response

  -- One module after the other, without a test.
  abbrev pub visits :
      (HttpFilterContext S → Bytes → HttpFilterContext S)
      → HttpFilterContext S
      → List Bytes
      → HttpFilterContext S
  visits step f [] = f
  visits step f (m ∷ ms) = visits step (step f m) ms

  -- `ran` is how far a chain goes that starts at `f`: `g` is the outcome of these modules alone, the
  -- chain had no answer before any of them, and it left out `rest` only on an answer.
  pub record Chain (step : HttpFilterContext S → Bytes → HttpFilterContext S)
      (f : HttpFilterContext S) (ms : List Bytes) (g : HttpFilterContext S) : Type 0 where
    pub ran : List Bytes
    pub rest : List Bytes
    pub split : ms ≡ ran ++ rest
    pub outcome : g ≡ visits step f ran
    pub stopped : (is_answered g ≡ true) ⊎ (rest ≡ [])
    pub unanswered :
        (before : List Bytes) (m : Bytes) (after : List Bytes)
        → ran ≡ before ++ (m ∷ after)
        → is_answered (visits step f before) ≡ false

  -- A chain that does not start.
  not_started-Chain :
      (step : HttpFilterContext S → Bytes → HttpFilterContext S) (f : HttpFilterContext S)
      (ms : List Bytes)
      → (is_answered f ≡ true) ⊎ (ms ≡ [])
      → Chain step f ms f
  not_started-Chain step f ms h = record {
    ran = [];
    rest = ms;
    split = refl;
    outcome = refl;
    stopped = h;
    unanswered = λ before m after e. ground (arith, nil-ne-append before m after e);
  }

  -- A module before a chain.
  step-Chain :
      (step : HttpFilterContext S → Bytes → HttpFilterContext S) (f : HttpFilterContext S)
      (m : Bytes) (ms : List Bytes) (g : HttpFilterContext S)
      → is_answered f ≡ false
      → Chain step (step f m) ms g
      → Chain step f (m ∷ ms) g
  step-Chain step f m ms g h c = record {
    ran = m ∷ c.ran;
    rest = c.rest;
    split = ap (λ l. m ∷ l) c.split;
    outcome = c.outcome;
    stopped = c.stopped;
    unanswered = go;
  }
    where
      go :
          (before : List Bytes) (n : Bytes) (after : List Bytes)
          → m ∷ c.ran ≡ before ++ (n ∷ after)
          → is_answered (visits step f before) ≡ false
      go [] n after e = h
      go (b ∷ before) n after e =
          let (same, tail) = cons_parts m b c.ran (before ++ (n ∷ after)) e in
          subst (λ k. is_answered (visits step (step f k) before) ≡ false) same
            (c.unanswered before n after tail)

  -- A phase visits the modules in their order, up to the first local response.
  pub run_phase-Chain :
      (visit : Visit S) (f : HttpFilterContext S) (ms : List Bytes)
      → Chain (visit_scope visit) f ms (run_phase visit f ms)
  unfolding run_phase
  run_phase-Chain visit f [] = not_started-Chain _ f [] (inr refl)
  run_phase-Chain visit f (m ∷ ms) =
      if_cases (λ g. Chain (visit_scope visit) f (m ∷ ms) g) (is_answered f) _ _
        (λ e. not_started-Chain _ f (m ∷ ms) (inl e))
        (λ e. step-Chain _ f m ms _ e (run_phase-Chain visit (visit_scope visit f m) ms))

  module _ (host : ProxyWasm S) (end_of_stream : Bool) where
    -- A loaded module of `onRequestHeaders`: without a scope it is passed over.
    abbrev pub start_step : HttpFilterContext S → Bytes → HttpFilterContext S
    start_step f m = elim (init_scope host m) [
      | none ↦ f
      | some c ↦ start_module host f m c end_of_stream
    ]

    stop_or_lem :
        (g rest : HttpFilterContext S)
        → ((is_answered g ≡ true) × (stop_or host g rest ≡ g))
          ⊎ ((is_answered g ≡ false) × (stop_or host g rest ≡ rest))
    unfolding stop_or
    stop_or_lem g rest = ground arith

    start_modules_lem :
        (f : HttpFilterContext S) (m : Bytes) (ms : List Bytes)
        → is_answered f ≡ false
        → start_modules host f (m ∷ ms) end_of_stream
          ≡ stop_or host (start_step f m) (start_modules host (start_step f m) ms end_of_stream)
    unfolding start_modules stop_or
    start_modules_lem f m ms h = go (init_scope host m)
      where
        go :
            (o : Option (LsWasmContext S))
            → elim o [
              | none ↦ start_modules host f ms end_of_stream
              | some c ↦
                  stop_or host
                    (start_module host f m c end_of_stream)
                    (start_modules host (start_module host f m c end_of_stream) ms end_of_stream)
            ]
              ≡ stop_or host
                  (elim o [ none ↦ f | some c ↦ start_module host f m c end_of_stream ])
                  (start_modules host
                    (elim o [ none ↦ f | some c ↦ start_module host f m c end_of_stream ])
                    ms
                    end_of_stream)
        go none = ground (h, arith)
        go (some c) = refl

    -- `onRequestHeaders` starts the loaded modules in their order, up to the first local response.
    pub start_modules-Chain :
        (f : HttpFilterContext S) (ms : List Bytes)
        → is_answered f ≡ false
        → Chain start_step f ms (start_modules host f ms end_of_stream)
    unfolding start_modules stop_or
    start_modules-Chain f [] h = not_started-Chain _ f [] (inr refl)
    start_modules-Chain f (m ∷ ms) h =
        subst (λ g. Chain start_step f (m ∷ ms) g) (sym (start_modules_lem f m ms h))
          (step-Chain _ f m ms _ h
            (elim (stop_or_lem (start_step f m)
              (start_modules host (start_step f m) ms end_of_stream)) [
                | inl (e, same) ↦
                    subst (λ g. Chain start_step (start_step f m) ms g) (sym same)
                      (not_started-Chain start_step (start_step f m) ms (inl e))
                | inr (e, same) ↦
                    subst (λ g. Chain start_step (start_step f m) ms g) (sym same)
                      (start_modules-Chain (start_step f m) ms e)
              ]))

  run_phase_answered :
      (visit : Visit S) (f : HttpFilterContext S) (ms : List Bytes)
      → is_answered f ≡ true
      → run_phase visit f ms ≡ f
  unfolding run_phase
  run_phase_answered visit f [] h = refl
  run_phase_answered visit f (m ∷ ms) h = ground (h, arith)

  -- After a local response no later phase does anything.
  pub phases_answered :
      (host : ProxyWasm S) (f : HttpFilterContext S) (end_of_stream : Bool)
      → is_answered f ≡ true
      → (request_body_phase host f end_of_stream ≡ f)
        × (request_trailers_phase host f ≡ f)
        × (response_headers_phase host f ≡ f)
        × (response_body_phase host f ≡ f)
        × (response_trailers_phase host f ≡ f)
  unfolding request_body_phase request_trailers_phase response_headers_phase response_body_phase
      response_trailers_phase
  phases_answered host f eos h =
      let stays : (visit : Visit S) → run_phase visit f f.module_order ≡ f =
        λ visit. run_phase_answered visit f f.module_order h in
      (stays _, stays _, stays _, stays _, stays _)
