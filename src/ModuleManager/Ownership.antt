-- ===== src/ModuleManager/Ownership.antt =====
-- Every stream context is ended exactly once: by the scope that owns it.
use lswasm.Base.{
  ℕ, ◌+◌, ◌≡◌, refl, ap, ◌∙◌, inl, inr, Bool, true, false, Option, none, some, List, [], ◌∷◌, ◌++◌,
  arith,
}
use lswasm.Base.{◌==◌, Option-cases}
use lswasm.Base.{Bytes}
use lswasm.ModuleManager.Scope.{
  ScopeCall, on_create, on_done, on_delete, RequestScope, no_scope, ScopeAnswers, created_calls,
  created_calls_lem, makes, drops, destroy, moved_out, move_construct, move_assign,
  create_request_scope,
}

-- The scopes that exist, and the calls made so far, those of the latest step first.
pub record World : Type 0 where
  pub scopes : List RequestScope
  pub calls : List ScopeCall

abbrev pub empty_world : World
empty_world = record { scopes = []; calls = [] }

-- A new scope is initialised, moved to a new one, assigned to another, or destroyed.
pub data Step (H : Type 0) : World → World → Type 0 where
  opens :
      (w : World) (m : List (Bytes × H)) (name : Bytes) (a : ScopeAnswers) (id : ℕ)
      → Step H w (record {
        scopes = (create_request_scope m name no_scope a id).1 ∷ w.scopes;
        calls = created_calls m name a ++ w.calls;
      })
  constructs :
      (w : World) (before after : List RequestScope) (other : RequestScope)
      → w.scopes ≡ before ++ (other ∷ after)
      → Step H w (record w {
        scopes = (move_construct other).0 ∷ (before ++ ((move_construct other).1 ∷ after));
      })
  assigns :
      (w : World) (before between after : List RequestScope) (this other : RequestScope)
      → w.scopes ≡ before ++ (this ∷ (between ++ (other ∷ after)))
      → Step H w (record {
        scopes =
            before
            ++ ((move_assign this other).0 ∷ (between ++ ((move_assign this other).1 ∷ after)));
        calls = (move_assign this other).2 ++ w.calls;
      })
  assigns_back :
      (w : World) (before between after : List RequestScope) (this other : RequestScope)
      → w.scopes ≡ before ++ (other ∷ (between ++ (this ∷ after)))
      → Step H w (record {
        scopes =
            before
            ++ ((move_assign this other).1 ∷ (between ++ ((move_assign this other).0 ∷ after)));
        calls = (move_assign this other).2 ++ w.calls;
      })
  destroys :
      (w : World) (before after : List RequestScope) (s : RequestScope)
      → w.scopes ≡ before ++ (s ∷ after)
      → Step H w (record { scopes = before ++ after; calls = destroy s ++ w.calls })

pub data Reach (H : Type 0) : World → Type 0 where
  here : Reach H empty_world
  next : {v w : World} → Reach H v → Step H v w → Reach H w

-- How often a context was created, is owned, was told that it is done, and was deleted.
abbrev one_if : Bool → ℕ
one_if true = 1
one_if false = 0

abbrev pub creations : ℕ → List ScopeCall → ℕ
creations c [] = 0
creations c (makes d ∷ l) = creations c l
creations c (drops d ∷ l) = creations c l
creations c (on_create d ∷ l) = one_if (c == d) + creations c l
creations c (on_done d ∷ l) = creations c l
creations c (on_delete d ∷ l) = creations c l

abbrev pub ends : ℕ → List ScopeCall → ℕ
ends c [] = 0
ends c (makes d ∷ l) = ends c l
ends c (drops d ∷ l) = ends c l
ends c (on_done d ∷ l) = one_if (c == d) + ends c l
ends c (on_create d ∷ l) = ends c l
ends c (on_delete d ∷ l) = ends c l

abbrev pub deletions : ℕ → List ScopeCall → ℕ
deletions c [] = 0
deletions c (makes d ∷ l) = deletions c l
deletions c (drops d ∷ l) = deletions c l
deletions c (on_delete d ∷ l) = one_if (c == d) + deletions c l
deletions c (on_create d ∷ l) = deletions c l
deletions c (on_done d ∷ l) = deletions c l

-- How often the host made a context, and one was lost on a failed cast.
abbrev pub makings : ℕ → List ScopeCall → ℕ
makings c [] = 0
makings c (makes d ∷ l) = one_if (c == d) + makings c l
makings c (drops d ∷ l) = makings c l
makings c (on_create d ∷ l) = makings c l
makings c (on_done d ∷ l) = makings c l
makings c (on_delete d ∷ l) = makings c l

abbrev pub losses : ℕ → List ScopeCall → ℕ
losses c [] = 0
losses c (drops d ∷ l) = one_if (c == d) + losses c l
losses c (makes d ∷ l) = losses c l
losses c (on_create d ∷ l) = losses c l
losses c (on_done d ∷ l) = losses c l
losses c (on_delete d ∷ l) = losses c l

abbrev owns : ℕ → Option ℕ → ℕ
owns c none = 0
owns c (some d) = one_if (c == d)

abbrev pub owners : ℕ → List RequestScope → ℕ
owners c [] = 0
owners c (s ∷ ss) = owns c s.ctx + owners c ss

owners-append :
    (c : ℕ) (xs ys : List RequestScope) → owners c (xs ++ ys) ≡ owners c xs + owners c ys
owners-append c [] ys = omega arith
owners-append c (x ∷ xs) ys = omega (arith, owners-append c xs ys)

pub record IsOwned (c : ℕ) (w : World) : Type 0 where
  pub ended : creations c w.calls ≡ owners c w.scopes + ends c w.calls
  pub deleted : deletions c w.calls ≡ ends c w.calls
  pub made : makings c w.calls ≡ creations c w.calls + losses c w.calls

destroy_lem :
    (c : ℕ) (s : RequestScope) (l : List ScopeCall)
    → (ends c (destroy s ++ l) ≡ owns c s.ctx + ends c l)
      × (deletions c (destroy s ++ l) ≡ owns c s.ctx + deletions c l)
      × (creations c (destroy s ++ l) ≡ creations c l)
      × (makings c (destroy s ++ l) ≡ makings c l)
      × (losses c (destroy s ++ l) ≡ losses c l)
unfolding destroy
destroy_lem c s l = elim (Option-cases s.ctx) [
  | inl e ↦ rw e (omega arith, omega arith, refl, refl, refl)
  | inr (d, e) ↦ rw e (refl, refl, refl, refl, refl)
]

-- What the calls of an opened scope add to the counts.
record Adds (c : ℕ) (l calls : List ScopeCall) (s : RequestScope) : Type 0 where
  ends_same : ends c (calls ++ l) ≡ ends c l
  deletions_same : deletions c (calls ++ l) ≡ deletions c l
  creations_more : creations c (calls ++ l) ≡ owns c s.ctx + creations c l
  all_made :
      makings c (calls ++ l) + (creations c l + losses c l)
      ≡ makings c l + (creations c (calls ++ l) + losses c (calls ++ l))

created_calls-Adds :
    (c : ℕ) {H : Type 0} (m : List (Bytes × H)) (name : Bytes) (a : ScopeAnswers) (id : ℕ)
    (l : List ScopeCall)
    → Adds c l (created_calls m name a) (create_request_scope m name no_scope a id).1
created_calls-Adds c m name a id l =
    created_calls_lem (Adds c l) m name a id
      (λ s e. record {
        ends_same = refl;
        deletions_same = refl;
        creations_more = rw e (omega arith);
        all_made = omega arith;
      })
      (λ s d e. record {
        ends_same = refl;
        deletions_same = refl;
        creations_more = rw e (omega arith);
        all_made = omega arith;
      })
      (λ s d e. record {
        ends_same = refl;
        deletions_same = refl;
        creations_more = rw e refl;
        all_made = omega arith;
      })

Step-IsOwned : (c : ℕ) {H : Type 0} {v w : World} → IsOwned c v → Step H v w → IsOwned c w
unfolding move_construct move_assign
Step-IsOwned c i (opens w m name a id) =
    let k = created_calls-Adds c m name a id w.calls in
    record {
      ended = omega (arith, i.ended, k.ends_same, k.creations_more);
      deleted = omega (arith, i.deleted, k.ends_same, k.deletions_same);
      made = omega (arith, i.made, k.all_made);
    }
Step-IsOwned c i (constructs w before after other e) =
    let n = ap (owners c) e ∙ owners-append c before (other ∷ after) in
    record {
      ended = omega (arith, i.ended, n, owners-append c before (moved_out ∷ after));
      deleted = i.deleted;
      made = i.made;
    }
Step-IsOwned c i (assigns w before between after this other e) =
    let k = destroy_lem c this w.calls in
    let n = ap (owners c) e ∙ owners-append c before (this ∷ (between ++ (other ∷ after))) in
    record {
      ended = omega (
        arith,
        i.ended,
        k.0,
        k.2,
        n,
        owners-append c between (other ∷ after),
        owners-append c before (other ∷ (between ++ (moved_out ∷ after))),
        owners-append c between (moved_out ∷ after),
      );
      deleted = omega (arith, i.deleted, k.0, k.1);
      made = omega (arith, i.made, k.2, k.3, k.4);
    }
Step-IsOwned c i (assigns_back w before between after this other e) =
    let k = destroy_lem c this w.calls in
    let n = ap (owners c) e ∙ owners-append c before (other ∷ (between ++ (this ∷ after))) in
    record {
      ended = omega (
        arith,
        i.ended,
        k.0,
        k.2,
        n,
        owners-append c between (this ∷ after),
        owners-append c before (moved_out ∷ (between ++ (other ∷ after))),
        owners-append c between (other ∷ after),
      );
      deleted = omega (arith, i.deleted, k.0, k.1);
      made = omega (arith, i.made, k.2, k.3, k.4);
    }
Step-IsOwned c i (destroys w before after s e) =
    let k = destroy_lem c s w.calls in
    let n = ap (owners c) e ∙ owners-append c before (s ∷ after) in
    record {
      ended = omega (arith, i.ended, k.0, k.2, n, owners-append c before after);
      deleted = omega (arith, i.deleted, k.0, k.1);
      made = omega (arith, i.made, k.2, k.3, k.4);
    }

-- Whatever scopes are created, moved and destroyed: a stream context was created as often as it is owned
-- by a scope or was told that it is done, and it was deleted as often as it was told so; when no scope
-- is left, each was ended exactly as often as it was created. The host made it as often as it was
-- created or lost, which happens where it is no `LsWasmContext`.
pub Reach-IsOwned : (c : ℕ) {H : Type 0} {w : World} → Reach H w → IsOwned c w
Reach-IsOwned c here = record { ended = refl; deleted = refl; made = refl }
Reach-IsOwned c (next r st) = Step-IsOwned c (Reach-IsOwned c r) st
