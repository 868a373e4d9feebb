-- ===== src/Rewriting/Protocol/Triples.antt =====
-- Work on a module, with what is asked of the history before and what holds of it afterwards.
use qcs_sdk_qir.Base.{ℕ, ◌≡◌, ◌⊎◌, inr, refl, Option, none, some, List, ◌∷◌}
use qcs_sdk_qir.Base.Outcome.{Error, Result, ok, err, Post, returns, raises}
use qcs_sdk_qir.Llvm.{pointer_value, BasicValue, Function}
use qcs_sdk_qir.Llvm.Builder.{
  Llvm, State, Build, pure, perform, required, module_now, lift, Command, build_call, Argument,
  History, into_pointer_value, call_pointer, call_int, ◌>>=◌, ◌>>◌,
}
use qcs_sdk_qir.Context.Structs.{Types}
use qcs_sdk_qir.Context.Externals.{Values}
use qcs_sdk_qir.Interop.Call.{call_for_pointer, call_only}
use qcs_sdk_qir.Rewriting.Protocol.{
  Job, Phase, IsQuiet, did, Gives, Step, quiet, Follows, next, idle,
}

module _ (L : Llvm) (t : Types) (v : Values) (job : Job) (old : History) where
  -- A state in a phase: once a command has been given, its module is the one that LLVM then has.
  pub record At (s : State) (p : Phase) : Type 0 where
    pub follows : Follows L t v job old s.history p
    pub shown : (p ≡ idle) ⊎ (s.llvm ≡ L.observe s.history)

  abbrev pub Ends : {A : Type 0} → (A → Phase) → Result Error (A × State) → Type 0
  Ends q = Post λ r. At r.1 (q r.0)

  -- From the phase `p`, the work leads to the phase that belongs to its value.
  pub record Leads {A : Type 0} (p : Phase) (m : Build A) (q : A → Phase) : Type 0 where
    pub ends : (s : State) → At s p → Ends q (m s)

module _ {L : Llvm} {t : Types} {v : Values} {job : Job} {old : History} where
  pub next-At :
      {s : State} {p p' : Phase} {c : Command} {a : ℕ}
      → At L t v job old s p
      → Step L t v job s.history p (did c a) p'
      → At L t v job old
          (record { llvm = L.observe (did c a ∷ s.history); history = did c a ∷ s.history })
          p'
  next-At h step = record { follows = next h.follows step; shown = inr refl }

  pub pure-Leads : {A : Type 0} (a : A) (q : A → Phase) → Leads L t v job old (q a) (pure a) q
  pure-Leads a q = record { ends = λ s h. returns h }

  bind-Ends :
      {A B : Type 0} {q : A → Phase} {r : B → Phase} {f : A → Build B}
      {o : Result Error (A × State)}
      → Ends L t v job old q o
      → ((a : A) → Leads L t v job old (q a) (f a) r)
      → Ends L t v job old r (elim o [ err e ↦ err e | ok (a, s') ↦ f a s' ])
  bind-Ends (returns h) k = (k _).ends _ h
  bind-Ends raises k = raises

  pub bind-Leads :
      {A B : Type 0} {p : Phase} {q : A → Phase} {r : B → Phase} {m : Build A} {f : A → Build B}
      → Leads L t v job old p m q
      → ((a : A) → Leads L t v job old (q a) (f a) r)
      → Leads L t v job old p (m >>= f) r
  unfolding ◌>>=◌
  bind-Leads {q = q} {r} {m = m} {f = f} hm hf = record { ends = λ s h. bind-Ends (hm.ends s h) hf }

  pub then-Leads :
      {A B : Type 0} {p p' : Phase} {r : B → Phase} {m : Build A} {k : Build B}
      → Leads L t v job old p m (λ _. p')
      → Leads L t v job old p' k r
      → Leads L t v job old p (m >> k) r
  unfolding ◌>>◌
  then-Leads hm hk = record { ends = λ s h. bind-Ends {f = λ _. _} (hm.ends s h) (λ a. hk) }

  pub required-Leads :
      {A : Type 0} {p : Phase} (o : Option A) (e : Error)
      → Leads L t v job old p (required o e) (λ _. p)
  required-Leads none e = record { ends = λ s h. raises }
  required-Leads (some a) e = record { ends = λ s h. returns h }

  -- With the equation of what was required.
  pub required_bind-Leads :
      {A B : Type 0} {p : Phase} {r : B → Phase} {f : A → Build B} (o : Option A) (e : Error)
      → ((a : A) → o ≡ some a → Leads L t v job old p (f a) r)
      → Leads L t v job old p (required o e >>= f) r
  unfolding ◌>>=◌
  required_bind-Leads none e k = record { ends = λ s h. raises }
  required_bind-Leads (some a) e k = record { ends = λ s h. (k a refl).ends s h }

  pub lift-Leads :
      {A : Type 0} {p : Phase} (o : Result Error A) → Leads L t v job old p (lift o) (λ _. p)
  lift-Leads (err e) = record { ends = λ s h. raises }
  lift-Leads (ok a) = record { ends = λ s h. returns h }

  pub now-Leads : {p : Phase} → Leads L t v job old p module_now (λ _. p)
  now-Leads = record { ends = λ s h. returns h }

  pub perform-Leads :
      {p : Phase} {c : Command} {q : ℕ → Phase}
      → ((h : History) (a : ℕ) → Step L t v job h p (did c a) (q a))
      → Leads L t v job old p (perform L c) q
  unfolding perform
  perform-Leads step = record { ends = λ s h. returns (next-At h (step _ _)) }

  pub quiet-Leads :
      {p : Phase} (c : Command) → IsQuiet c → Leads L t v job old p (perform L c) (λ _. p)
  quiet-Leads c h = perform-Leads λ _ _. quiet h

  pub call_only-Leads :
      {p q : Phase} (f : Function) (args : List Argument)
      → ((h : History) (a : ℕ) → Step L t v job h p (did (build_call f args) a) q)
      → Leads L t v job old p (call_only L f args) (λ _. q)
  unfolding call_only
  call_only-Leads f args step = then-Leads (perform-Leads step) (pure-Leads tt (λ _. _))

  -- A value that is looked for, and is an error if it is not a pointer.
  pub pointer-Ends :
      {q : ℕ → Phase} (s : State) (o : Option BasicValue) (e : Error)
      → ((x : ℕ) → o ≡ some (pointer_value x) → At L t v job old s (q x))
      → Ends L t v job old q ((required o e >>= λ b. lift (into_pointer_value b)) s)
  unfolding ◌>>=◌ into_pointer_value
  pointer-Ends s none e k = raises
  pointer-Ends s (some (pointer_value x)) e k = returns (k x refl)
  pointer-Ends s (some _) e k = raises

  pub call_for_pointer-Leads :
      {p : Phase} {q : ℕ → Phase} (f : Function) (args : List Argument)
      → ((h : History) (a x : ℕ)
          → Gives L t v job (did (build_call f args) a ∷ h) a x
          → Step L t v job h p (did (build_call f args) a) (q x))
      → Leads L t v job old p (call_for_pointer L f args) q
  unfolding ◌>>=◌ call_for_pointer perform call_pointer
  call_for_pointer-Leads f args step = record {
    ends = λ s h. pointer-Ends _ _ _ λ x g. next-At h (step _ _ x g);
  }

  -- An integer that is read and does not matter.
  call_int-Leads : {p : Phase} (site : ℕ) → Leads L t v job old p (call_int site) (λ _. p)
  unfolding call_int
  call_int-Leads site = bind-Leads now-Leads λ m. bind-Leads (required-Leads _ _) λ b. lift-Leads _

  pub call_for_int-Leads :
      {p q : Phase} (f : Function) (args : List Argument)
      → ((h : History) (a : ℕ) → Step L t v job h p (did (build_call f args) a) q)
      → Leads L t v job old p (perform L (build_call f args) >>= λ site. call_int site) (λ _. q)
  call_for_int-Leads f args step = bind-Leads (perform-Leads step) λ site. call_int-Leads site
