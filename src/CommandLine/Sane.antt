-- ===== src/CommandLine/Sane.antt =====
-- What any command line leaves in the options.
use lswasm.Base.{
  ℕ, zero, suc, ◌+◌, ◌-◌, ◌^◌, ◌≤◌, ◌<◌, ◌≡◌, subst, inl, inr, Bool, true, false, Option, none,
  some, List, [], ◌∷◌, arith,
}
use lswasm.Base.{ltb, ◌==◌, if◌then◌else◌, Option-cases, if_cases}
use lswasm.Base.{is_empty, any_of, All}
use lswasm.Base.{Bytes, codes, bytes_eq}
use lswasm.Base.{numeral_value}
use lswasm.Base.{assign}
use native.Mathlib.Nat.{mod-lt}
use lswasm.Server.Request.{skip_space, digits}
use lswasm.CommandLine.{
  sign_of, signed, Options, ℤ, default_options, stoi, to_size, parse_perm, split_env, Parsed,
  proceeds, exits, throws, Turn, one, two, stop, port_turn, perm_turn, env_turn, workers_turn,
  option_turn, flag_turn, or_flag, after_turn, parse_args,
}

-- The permissions are an octal number of three digits, the names of variables have no `=`, and the
-- number of workers is a `size_t`.
pub record IsSane (o : Options) : Type 0 where
  pub perm : o.sock_perm ≤ 511
  pub envs : All (λ e. any_of (λ c. c == b'=') (e.0) ≡ false) o.wasm_envs
  pub workers : o.num_workers < 2 ^ 64

abbrev IsSaneTurn : Turn → Type 0
IsSaneTurn (one o) = IsSane o
IsSaneTurn (two o) = IsSane o
IsSaneTurn (stop (proceeds o)) = IsSane o
IsSaneTurn (stop p) = Unit

abbrev pub IsSaneResult : Parsed → Type 0
IsSaneResult (proceeds o) = IsSane o
IsSaneResult p = Unit

stop-IsSaneTurn : (p : Parsed) → IsSaneTurn (stop p) → IsSaneResult p
stop-IsSaneTurn (proceeds o) v = v
stop-IsSaneTurn (exits n) v = tt
stop-IsSaneTurn throws v = tt

parse_perm_bound : (text : Bytes) (n : ℕ) → parse_perm text ≡ some n → n ≤ 511
unfolding parse_perm
parse_perm_bound text n h = ground (arith, h)

split_env_key :
    (text key value : Bytes)
    → split_env text ≡ some (key, value)
    → any_of (λ c. c == b'=') key ≡ false
split_env_key [] key value h = absurd (ground (arith, h))
split_env_key (c ∷ cs) key value h = elim (Option-cases (split_env cs)) [
  | inl e ↦ ground (arith, h, e)
  | inr ((k, v), e) ↦ ground (arith, h, e, split_env_key cs k v e)
]

assign-keys :
    (key value : Bytes) (m : List (Bytes × Bytes))
    → any_of (λ c. c == b'=') key ≡ false
    → All (λ e. any_of (λ c. c == b'=') (e.0) ≡ false) m
    → All (λ e. any_of (λ c. c == b'=') (e.0) ≡ false) (assign bytes_eq key value m)
assign-keys key value [] h v = (h, v)
assign-keys key value ((k, w) ∷ m) h v =
    if_cases (All (λ e. any_of (λ c. c == b'=') (e.0) ≡ false)) (bytes_eq k key) _ _
      (λ e. (v.0, v.1)) (λ e. (v.0, assign-keys key value m h v.1))

abbrev IsSmall : Option ℤ → Type 0
IsSmall none = Unit
IsSmall (some n) = to_size n < 2 ^ 64

signed-IsSmall : (negative : Bool) (n : ℕ) → n < 2 ^ 32 → IsSmall (some (signed negative n))
unfolding to_size
signed-IsSmall negative zero h = omega arith
signed-IsSmall true (suc n) h = mod-lt (2 ^ 64 - suc n) (omega arith)
signed-IsSmall false (suc n) h = omega arith

stoi-IsSmall : (text : Bytes) → IsSmall (stoi text)
unfolding stoi
stoi-IsSmall text =
    let (negative, rest) = sign_of (skip_space text) in
    let n = numeral_value 10 0 (digits rest) in
    if_cases IsSmall (is_empty (digits rest)) _ _ (λ e. tt)
      (λ e.
        if_cases IsSmall (ltb n (if negative then 2 ^ 31 + 1 else 2 ^ 31)) _ _
          (λ below. signed-IsSmall negative n (ground (arith, below))) (λ above. tt))

abbrev IsSaneOption : Option Turn → Type 0
IsSaneOption none = Unit
IsSaneOption (some t) = IsSaneTurn t

port_turn-IsSane : (o : Options) (n : Option ℤ) → IsSane o → IsSaneTurn (port_turn o n)
port_turn-IsSane o none v = tt
port_turn-IsSane o (some n) v = record { perm = v.perm; envs = v.envs; workers = v.workers }

perm_turn-IsSane :
    (o : Options) (text : Bytes) → IsSane o → IsSaneTurn (perm_turn o (parse_perm text))
perm_turn-IsSane o text v = elim (Option-cases (parse_perm text)) [
  | inl e ↦ rw e tt
  | inr (n, e) ↦
      rw e (record { perm = parse_perm_bound text n e; envs = v.envs; workers = v.workers })
]

env_turn-IsSane : (o : Options) (text : Bytes) → IsSane o → IsSaneTurn (env_turn o (split_env text))
env_turn-IsSane o text v = elim (Option-cases (split_env text)) [
  | inl e ↦ rw e tt
  | inr ((key, value), e) ↦ rw e (record {
    perm = v.perm;
    envs = assign-keys key value o.wasm_envs (split_env_key text key value e) v.envs;
    workers = v.workers;
  })
]

workers_turn-IsSane :
    (o : Options) (n : Option ℤ) → IsSmall n → IsSane o → IsSaneTurn (workers_turn o n)
unfolding workers_turn
workers_turn-IsSane o none h v = tt
workers_turn-IsSane o (some n) h v = record { perm = v.perm; envs = v.envs; workers = h }

option_turn-IsSane :
    (o : Options) (arg value : Bytes) → IsSane o → IsSaneOption (option_turn o arg value)
unfolding option_turn
option_turn-IsSane o arg value v =
    let other = if_cases IsSaneOption in
    other (bytes_eq arg (codes "--port")) _ _ (λ e. port_turn-IsSane o (stoi value) v)
      λ e.
        other (bytes_eq arg (codes "--uds")) _ _
          (λ e. record { perm = v.perm; envs = v.envs; workers = v.workers })
          λ e.
            other (bytes_eq arg (codes "--sock-perm")) _ _ (λ e. perm_turn-IsSane o value v)
              λ e.
                other (bytes_eq arg (codes "--module")) _ _
                  (λ e. record { perm = v.perm; envs = v.envs; workers = v.workers })
                  λ e.
                    other (bytes_eq arg (codes "--env")) _ _ (λ e. env_turn-IsSane o value v)
                      λ e.
                        other (bytes_eq arg (codes "--workers")) _ _
                          (λ e. workers_turn-IsSane o (stoi value) (stoi-IsSmall value) v) (λ e. tt)

flag_turn-IsSane : (o : Options) (arg : Bytes) → IsSane o → IsSaneTurn (flag_turn o arg)
unfolding flag_turn
flag_turn-IsSane o arg v =
    let other = if_cases IsSaneTurn in
    other (bytes_eq arg (codes "--lsapi")) _ _
      (λ e. record { perm = v.perm; envs = v.envs; workers = v.workers })
      λ e.
        other (bytes_eq arg (codes "--body-pacifier")) _ _
          (λ e. record { perm = v.perm; envs = v.envs; workers = v.workers })
          λ e.
            other (bytes_eq arg (codes "--debug")) _ _
              (λ e. record { perm = v.perm; envs = v.envs; workers = v.workers })
              λ e.
                other (bytes_eq arg (codes "--version")) _ _ (λ e. tt)
                  λ e. other (bytes_eq arg (codes "--help")) _ _ (λ e. tt) (λ e. v)

or_flag-IsSane :
    (p : Option Turn) (t : Turn) → IsSaneOption p → IsSaneTurn t → IsSaneTurn (or_flag p t)
or_flag-IsSane none t p v = v
or_flag-IsSane (some u) t p v = p

after_turn-IsSane :
    (t : Turn) (f g : Options → Parsed)
    → IsSaneTurn t
    → ((o : Options) → IsSane o → IsSaneResult (f o))
    → ((o : Options) → IsSane o → IsSaneResult (g o))
    → IsSaneResult (after_turn t f g)
after_turn-IsSane (one o) f g v hf hg = hf o v
after_turn-IsSane (two o) f g v hf hg = hg o v
after_turn-IsSane (stop p) f g v hf hg = stop-IsSaneTurn p v

parse_args-IsSaneResult :
    (args : List Bytes) (o : Options) → IsSane o → IsSaneResult (parse_args o args)
unfolding parse_args
parse_args-IsSaneResult [] o v = v
parse_args-IsSaneResult (arg ∷ []) o v =
    after_turn-IsSane (flag_turn o arg) _ _ (flag_turn-IsSane o arg v) (λ o' v'. v') (λ o' v'. v')
parse_args-IsSaneResult (arg ∷ value ∷ rest) o v =
    after_turn-IsSane (or_flag (option_turn o arg value) (flag_turn o arg)) _ _
      (or_flag-IsSane (option_turn o arg value) (flag_turn o arg) (option_turn-IsSane o arg value v)
        (flag_turn-IsSane o arg v))
      (λ o' v'. parse_args-IsSaneResult (value ∷ rest) o' v')
      (λ o' v'. parse_args-IsSaneResult rest o' v')

-- Whatever the arguments are, the options that `main` goes on with have permissions of at most 0777, no
-- variable with an `=` in its name, and a number of workers that a `size_t` holds.
pub parse_args-IsSane :
    (args : List Bytes) (o : Options) → parse_args default_options args ≡ proceeds o → IsSane o
parse_args-IsSane args o e = subst IsSaneResult e (
    parse_args-IsSaneResult args default_options
      (record { perm = omega arith; envs = tt; workers = omega arith }))
