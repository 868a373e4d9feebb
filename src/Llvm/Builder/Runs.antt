-- ===== src/Llvm/Builder/Runs.antt =====
-- Work on a module, run from one state on: what holds of the value and of the state that it leaves.
use qcs_sdk_qir.Base.{ℕ, ◌≡◌, refl, Option, none, some, ◌∷◌}
use qcs_sdk_qir.Base.Outcome.{Error, Result, ok, err, Post, returns, raises, Post-imp}
use qcs_sdk_qir.Llvm.{Module}
use qcs_sdk_qir.Llvm.Builder.{
  Llvm, State, Build, Command, pure, perform, required, module_now, ◌>>=◌, ◌>>◌,
}

-- The state after a command that was answered by `a`.
abbrev pub after : Llvm → Command → ℕ → State → State
after L c a s = record {
  llvm = L.observe (record { command = c; answer = a } ∷ s.history);
  history = record { command = c; answer = a } ∷ s.history;
}

pub record Runs {A : Type 0} (s : State) (m : Build A) (Q : A → State → Type 0) : Type 0 where
  pub post : Post (λ r. Q r.0 r.1) (m s)

module _ {A B : Type 0} {T : B → State → Type 0} where
  bound :
      {Q : A → State → Type 0} {f : A → Build B} {o : Result Error (A × State)}
      → Post (λ r. Q r.0 r.1) o
      → ((a : A) (s' : State) → Q a s' → Runs s' (f a) T)
      → Post
          (λ r. T r.0 r.1)
          (elim o as (λ _. Result Error (B × State)) [ err e ↦ err e | ok (a, s') ↦ f a s' ])
  bound (returns h) k = (k _ _ h).post
  bound raises k = raises

module _ {A B : Type 0} {s : State} {T : B → State → Type 0} where
  pub bind-Runs :
      {Q : A → State → Type 0} {m : Build A} {f : A → Build B}
      → Runs s m Q
      → ((a : A) (s' : State) → Q a s' → Runs s' (f a) T)
      → Runs s (m >>= f) T
  unfolding ◌>>=◌
  bind-Runs h k = record { post = bound h.post k }

  pub then-Runs :
      {Q : A → State → Type 0} {m : Build A} {n : Build B}
      → Runs s m Q
      → ((a : A) (s' : State) → Q a s' → Runs s' n T)
      → Runs s (m >> n) T
  unfolding ◌>>◌
  then-Runs {n = n} h k = record { post = bound {f = λ _. n} h.post k }

  -- With the equation of what was required.
  pub required-Runs :
      {f : A → Build B} (o : Option A) (e : Error)
      → ((a : A) → o ≡ some a → Runs s (f a) T)
      → Runs s (required o e >>= f) T
  unfolding ◌>>=◌
  required-Runs none e k = record { post = raises }
  required-Runs (some a) e k = record { post = (k a refl).post }

pub now_at : {B : Type 0} (f : Module → Build B) (s : State) → (module_now >>= f) s ≡ f s.llvm s
unfolding ◌>>=◌
now_at f s = refl

module _ {B : Type 0} {s : State} {T : B → State → Type 0} where
  pub pure-Runs : (b : B) → T b s → Runs s (pure b) T
  pure-Runs b h = record { post = returns h }

  pub now-Runs : (f : Module → Build B) → Runs s (f s.llvm) T → Runs s (module_now >>= f) T
  now-Runs f h = record { post = rw (now_at f s) h.post }

  pub perform-Runs :
      {f : ℕ → Build B} (L : Llvm) (c : Command)
      → ((a : ℕ) → Runs (after L c a s) (f a) T)
      → Runs s (perform L c >>= f) T
  unfolding ◌>>=◌ perform
  perform-Runs L c k = record { post = (k _).post }

  pub perform_then-Runs :
      {n : Build B} (L : Llvm) (c : Command)
      → ((a : ℕ) → Runs (after L c a s) n T)
      → Runs s (perform L c >> n) T
  unfolding ◌>>◌ perform
  perform_then-Runs L c k = record { post = (k _).post }

pub weaken-Runs :
    {A : Type 0} {s : State} {m : Build A} {Q R : A → State → Type 0}
    → Runs s m Q
    → ((a : A) (s' : State) → Q a s' → R a s')
    → Runs s m R
weaken-Runs h k = record { post = Post-imp h.post λ r q. k r.0 r.1 q }

both_posts :
    {A : Type 0} (Q R : A → State → Type 0) {o : Result Error (A × State)}
    → Post (λ r. Q r.0 r.1) o
    → Post (λ r. R r.0 r.1) o
    → Post (λ r. Q r.0 r.1 × R r.0 r.1) o
both_posts Q R (returns q) (returns r) = returns (q, r)
both_posts Q R raises raises = raises

pub both-Runs :
    {A : Type 0} {s : State} {m : Build A} {Q R : A → State → Type 0}
    → Runs s m Q
    → Runs s m R
    → Runs s m (λ a s'. Q a s' × R a s')
both-Runs {Q = Q} {R = R} h k = record { post = both_posts Q R h.post k.post }

pub perform_last-Runs :
    {s : State} {Q : ℕ → State → Type 0} (L : Llvm) (c : Command)
    → ((a : ℕ) → Q a (after L c a s))
    → Runs s (perform L c) Q
unfolding perform
perform_last-Runs L c k = record { post = returns (k _) }

any_post : {A : Type 0} (o : Result Error (A × State)) → Post (λ _. Unit {0}) o
any_post (ok r) = returns tt
any_post (err e) = raises

-- Work of which nothing is asked.
pub any-Runs :
    {A B : Type 0} {s : State} {f : A → Build B} {T : B → State → Type 0} (m : Build A)
    → ((a : A) (s' : State) → Runs s' (f a) T)
    → Runs s (m >>= f) T
any-Runs {s = s} m k =
    bind-Runs {Q = λ _ _. Unit {0}} (record { post = any_post (m s) }) λ a s' _. k a s'
