-- ===== src/Namespaces/Allocation.antt =====
-- The allocation of a namespace, against a relation that says what a search of the candidates
-- finds.
use petri_operator.Prelude.{
  ℕ, zero, suc, ◌+◌, ◌*◌, ◌%◌, ◌≤◌, ◌<◌, true, false, ◌≡◌, ◌≢◌, refl, sym, subst, ◌∷◌, leb, ◌==◌,
  arith, eq_iff, inl, inr, Bool-cases,
}
use petri_operator.Prelude.Effects.{Err, other, Result, ok, err, is_not_found, Result-cases}
use petri_operator.Types.{Environment, Namespace}
use petri_operator.Cluster.{Log, Api, get_namespace}
use petri_operator.Platform.{Platform}
use petri_operator.Namespaces.{
  World, Reconciler, owns_namespace, candidate, target_namespace, allocate_loop, allocate_namespace,
}
use petri_operator.Namespaces.Choice.{IsAssigned, target_namespace_iff}

module _ (api : Api) (p : Platform) (r : Reconciler) where
  abbrev occupied_error : Err
  occupied_error = record {
    kind = other;
    text = "all deterministic namespace prefixes through 52 hex characters are occupied";
  }

  -- Finds env n log answer log': the candidates of n, n + 4, ... characters are read one after
  -- another, from the calls of log to those of log'. The answer is the first that is free or the
  -- environment's own, or the error that ends the search.
  pub data Finds (env : Environment) : ℕ → Log → Result ℕ → Log → Type 0 where
    exhausted : {n : ℕ} {log : Log} → 52 < n → Finds env n log (err occupied_error) log
    is_free :
        {n : ℕ} {log : Log} {e : Err}
        → n ≤ 52
        → api.namespace_at false (candidate api p r env.uid n) log ≡ err e
        → is_not_found e ≡ true
        → Finds env n log (ok n) (get_namespace false (candidate api p r env.uid n) ∷ log)
    is_own :
        {n : ℕ} {log : Log} {ns : Namespace}
        → n ≤ 52
        → api.namespace_at false (candidate api p r env.uid n) log ≡ ok ns
        → owns_namespace env ns ≡ true
        → Finds env n log (ok n) (get_namespace false (candidate api p r env.uid n) ∷ log)
    is_unreadable :
        {n : ℕ} {log : Log} {e : Err}
        → n ≤ 52
        → api.namespace_at false (candidate api p r env.uid n) log ≡ err e
        → is_not_found e ≡ false
        → Finds env n log (err e) (get_namespace false (candidate api p r env.uid n) ∷ log)
    is_taken :
        {n : ℕ} {log log' : Log} {ns : Namespace} {answer : Result ℕ}
        → n ≤ 52
        → api.namespace_at false (candidate api p r env.uid n) log ≡ ok ns
        → owns_namespace env ns ≡ false
        → Finds env (n + 4) (get_namespace false (candidate api p r env.uid n) ∷ log) answer log'
        → Finds env n log answer log'

  -- The environment after the search: only its target namespace changes, and only on success.
  abbrev pub retarget : Result ℕ → Environment → Environment
  retarget (ok n) env =
      let s = env.status in
      record env { status = record s { target_namespace = candidate api p r env.uid n } }
  retarget (err e) env = env

  abbrev pub outcome : Result ℕ → Result (Unit {0})
  outcome (ok n) = ok tt
  outcome (err e) = err e

  abbrev IsFound : ℕ → World → Result (Unit {0}) × World → Type 0
  IsFound n w result =
      (answer : Result ℕ) × ((log : Log) × Finds w.env n w.log answer log
        × (result ≡ (outcome answer, record w { log = log; env = retarget answer w.env })))

  allocate_loop-IsFound :
      (fuel n : ℕ) (w : World) → 52 < n + 4 * fuel → IsFound n w (allocate_loop api p r fuel n w)
  unfolding allocate_loop
  allocate_loop-IsFound zero n w enough =
      (err occupied_error, (w.log, exhausted (omega arith), refl))
  allocate_loop-IsFound (suc fuel) n w enough =
      let name = candidate api p r w.env.uid n in
      let next = record w { log = get_namespace false name ∷ w.log } in
      elim (Bool-cases (leb n 52)) [
        | inr h ↦ (err occupied_error, (w.log, exhausted (ground arith), (rw h)))
        | inl h ↦ elim (Result-cases (api.namespace_at false name w.log)) [
          | inl (ns, e) ↦ elim (Bool-cases (owns_namespace w.env ns)) [
            | inl own ↦ (ok n, (next.log, is_own (ground arith) e own, (rw (h, e, own))))
            | inr taken ↦
                let (answer, (log, found, same)) =
                  allocate_loop-IsFound fuel (n + 4) next (omega arith) in
                (answer, (log, is_taken (ground arith) e taken found, (rw (h, e, taken, same))))
          ]
          | inr (x, e) ↦ elim (Bool-cases (is_not_found x)) [
            | inl missing ↦
                (ok n, (next.log, is_free (ground arith) e missing, (rw (h, e, missing))))
            | inr broken ↦
                (err x, (next.log, is_unreadable (ground arith) e broken, (rw (h, e, broken))))
          ]
        ]
      ]

  -- For an environment with a UID, `allocateNamespace` from any number of characters does exactly
  -- what the search finds: it reads the candidates in order, stores the first that is free or the
  -- environment's own as the target namespace and changes nothing else of the environment, and on
  -- an error leaves the environment as it was. Every search ends within the fuel.
  pub allocate_namespace-Finds :
      (start : ℕ) (w : World)
      → w.env.uid ≢ ""
      → (answer : Result ℕ) × ((log : Log) × Finds w.env start w.log answer log
          × (allocate_namespace api p r start w
              ≡ (outcome answer, record w { log = log; env = retarget answer w.env })))
  unfolding allocate_namespace
  allocate_namespace-Finds start w u =
      let test : (w.env.uid == "") ≡ false = ground (arith, eq_iff w.env.uid "") in
      rw (test) (allocate_loop-IsFound 53 start w (omega arith))

  Finds-range :
      {env : Environment} {n m : ℕ} {log log' : Log}
      → Finds env n log (ok m) log'
      → (n ≤ m) × (m ≤ 52) × (m % 4 ≡ n % 4)
  Finds-range (is_free h _ _) = (omega arith, h, refl)
  Finds-range (is_own h _ _) = (omega arith, h, refl)
  Finds-range (is_taken h _ _ found) =
      let (low, high, even) = Finds-range found in (omega arith, high, omega arith)

  accepted :
      (start : ℕ) (env : Environment) (answer : Result ℕ) (log log' : Log)
      → env.uid ≢ ""
      → 8 ≤ start
      → start % 4 ≡ 0
      → Finds env start log answer log'
      → outcome answer ≡ ok tt
      → IsAssigned api p r (retarget answer env)
  accepted start env (ok n) log log' u low even found h =
      let (above, high, same) = Finds-range found in (u, (n, omega arith, high, omega arith, refl))
  accepted start env (err e) log log' u low even found h = absurd (ground arith)

  -- From 8 characters or any later multiple of 4, a successful `allocateNamespace` stores a
  -- target that `targetNamespace` accepts in the reconciliations that follow.
  pub allocate_namespace-target_namespace :
      (start : ℕ) (w : World)
      → w.env.uid ≢ ""
      → 8 ≤ start
      → start % 4 ≡ 0
      → (allocate_namespace api p r start w).0 ≡ ok tt
      → let env = (allocate_namespace api p r start w).1.env in
        target_namespace api p r env ≡ ok env.status.target_namespace
  allocate_namespace-target_namespace start w u low even =
      let (answer, (log, found, same)) = allocate_namespace-Finds start w u in
      let env = retarget answer w.env in
      subst
        (λ t. t.0 ≡ ok tt → target_namespace api p r t.1.env ≡ ok t.1.env.status.target_namespace)
        (sym same)
        (λ h.
          (target_namespace_iff api p r env env.status.target_namespace).1
            (accepted start w.env answer w.log log u low even found h, refl))
