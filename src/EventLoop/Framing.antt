-- ===== src/EventLoop/Framing.antt =====
-- How the bytes received are cut into headers and body, whatever the pieces in which they arrive.
use lswasm.Base.{
  ℕ, ◌+◌, ◌≤◌, ◌≡◌, refl, ap, ◌∙◌, inl, inr, Bool, true, false, some, [], ◌∷◌, ◌++◌, append-nil,
  append_assoc, arith,
}
use lswasm.Base.{Bool-cases, Option-cases}
use lswasm.Base.{length, take, drop, length-append, take-append-drop}
use lswasm.Base.{Bytes}
use lswasm.EventLoop.{at_end, split_headers}
use lswasm.EventLoop.Invariant.{Framed}

at_end-append : (s t : Bytes) → at_end s ≡ true → at_end (s ++ t) ≡ true
at_end-append [] t h = absurd (ground (arith, h))
at_end-append (a ∷ []) t h = absurd (ground (arith, h))
at_end-append (a ∷ b ∷ []) t h = absurd (ground (arith, h))
at_end-append (a ∷ b ∷ c ∷ []) t h = absurd (ground (arith, h))
at_end-append (a ∷ b ∷ c ∷ d ∷ s) t h = h

at_end-parts :
    (s t : Bytes)
    → at_end s ≡ true
    → (take 4 (s ++ t) ≡ take 4 s) × (drop 4 (s ++ t) ≡ drop 4 s ++ t)
at_end-parts [] t h = absurd (ground (arith, h))
at_end-parts (a ∷ []) t h = absurd (ground (arith, h))
at_end-parts (a ∷ b ∷ []) t h = absurd (ground (arith, h))
at_end-parts (a ∷ b ∷ c ∷ []) t h = absurd (ground (arith, h))
at_end-parts (a ∷ b ∷ c ∷ d ∷ s) t h = (refl, refl)

at_end-found :
    (x : ℕ) (s t before after : Bytes)
    → split_headers s ≡ some (before, after)
    → at_end (x ∷ (s ++ t)) ≡ at_end (x ∷ s)
at_end-found x [] t before after h = absurd (ground (arith, h))
at_end-found x (a ∷ []) t before after h = absurd (ground (arith, h))
at_end-found x (a ∷ b ∷ []) t before after h = absurd (ground (arith, h))
at_end-found x (a ∷ b ∷ c ∷ s) t before after h = refl

pub split_headers-append :
    (s t before after : Bytes)
    → split_headers s ≡ some (before, after)
    → split_headers (s ++ t) ≡ some (before, after ++ t)
split_headers-append [] t before after h = absurd (ground (arith, h))
split_headers-append (x ∷ s) t before after h = elim (Bool-cases (at_end (x ∷ s))) [
  | inl found ↦
      let parts = at_end-parts (x ∷ s) t found in
      ground (arith, parts, at_end-append (x ∷ s) t found, found, h)
  | inr further ↦ elim (Option-cases (split_headers s)) [
    | inl e ↦ absurd (ground (arith, e, further, h))
    | inr ((b, a), e) ↦
        let same = at_end-found x s t b a e in
        let later = split_headers-append s t b a e in ground (arith, same, further, e, later, h)
  ]
]

pub split_headers_parts :
    (s before after : Bytes) → split_headers s ≡ some (before, after) → before ++ after ≡ s
split_headers_parts [] before after h = absurd (ground (arith, h))
split_headers_parts (x ∷ s) before after h = elim (Bool-cases (at_end (x ∷ s))) [
  | inl found ↦ ground (arith, found, h, take-append-drop 4 (x ∷ s))
  | inr further ↦ elim (Option-cases (split_headers s)) [
    | inl e ↦ absurd (ground (arith, e, further, h))
    | inr ((b, a), e) ↦ ground (arith, e, further, h, split_headers_parts s b a e)
  ]
]

pub Framed-late : (r b h more : Bytes) (n : ℕ) → Framed r b h n true → Framed (r ++ more) b h n true
Framed-late r b h more n f = record {
  tail = f.tail ++ more;
  split =
      split_headers-append r more h _ f.split ∙ ap (λ a. some (h, a)) (append_assoc b f.tail more);
  announced = f.announced;
  bounded = f.bounded;
  going = λ e. cc;
}

pub Framed-more :
    (r b h more : Bytes) (n k : ℕ) (done : Bool)
    → Framed r b h n false
    → length b + length (take k more) ≤ n
    → (done ≡ false → drop k more ≡ [])
    → Framed (r ++ more) (b ++ take k more) h n done
Framed-more r b h more n k done f fits all =
    let e : (b ++ f.tail) ++ more ≡ (b ++ take k more) ++ drop k more =
      rw (f.going refl) (simp (append-nil, append_assoc, take-append-drop k more)) in
    record {
      tail = drop k more;
      split = split_headers-append r more h _ f.split ∙ ap (λ a. some (h, a)) e;
      announced = f.announced;
      bounded = omega (arith, length-append b (take k more), fits);
      going = all;
    }
