-- ===== src/Session/Sending/Counting.antt =====
-- What the metrics of src/metrics.rs count of the requests that `execute_request` sends.
use lkrequest_py.Prelude.{
  ℕ, ◌+◌, ◌≡◌, String, Bool, true, false, List, [], ◌∷◌, Option, leb, arith, PyResult, ok, err,
}
use lkrequest_py.Types.{F64}
use lkrequest_py.SessionState.{Behaviour, fire_request}
use lkrequest_py.Metrics.{u64, one_if, add_if}
use lkrequest_py.Metrics.Global.{global-requests, global-errors}
use lkrequest_py.Session.{PreparedRequest, BuilderCall, apply_request_options}
use lkrequest_py.Session.Sending.{Env, Received, sample, received, execute_request}

abbrev pub answered : PyResult Received → ℕ
answered (ok resp) = 1
answered (err e) = 0

abbrev pub erroneous : PyResult Received → ℕ
erroneous (ok resp) = one_if (leb 400 resp.status_code)
erroneous (err e) = 0

abbrev pub total : (PyResult Received → ℕ) → List (PyResult Received) → ℕ
total f [] = 0
total f (x ∷ xs) = f x + total f xs

add_if-u64 : (b : Bool) (n : ℕ) → u64 (add_if b n) ≡ u64 (n + (one_if b + 0))
add_if-u64 true n = omega arith
add_if-u64 false n = omega arith

module _ (add : F64 → F64 → F64) (host_of : String → Option String) (handles : ℕ)
    (hooks : Behaviour) (send : List BuilderCall → Env → PyResult Received × Env) where
  -- Requests sent one after the other.
  pub execute_all : List PreparedRequest → Env → List (PyResult Received) × Env
  execute_all [] env = ([], env)
  execute_all (r ∷ rs) env =
      let (result, env') = execute_request add host_of handles hooks send r env in
      let rest = execute_all rs env' in (result ∷ rest.0, rest.1)

  -- The two counters went up by what these results add, as far as 64 bits show it.
  abbrev pub Counts : Env → List (PyResult Received) → Env → Type 0
  Counts env results env' =
      (u64 env'.metrics.global_requests
        ≡ u64 (env.metrics.global_requests + total answered results))
      × (u64 env'.metrics.global_errors ≡ u64 (env.metrics.global_errors + total erroneous results))

  module _ (collecting : leb 2 handles ≡ true)
      (quiet : (calls : List BuilderCall) (env : Env)
        → (send calls env).1.metrics ≡ env.metrics) where
    received-Counts :
        (result : PyResult Received) (env after : Env)
        → after.metrics ≡ env.metrics
        → let r = received add host_of handles hooks send result after in Counts env (r.0 ∷ []) r.1
    received-Counts (err e) env after q = simp q (omega arith, omega arith)
    received-Counts (ok resp) env after q =
        let s = sample resp in
        let m = after.metrics in
        (
          rw (global-requests add host_of handles resp.url s m collecting) (simp q (omega arith)),
          rw (global-errors add host_of handles resp.url s m collecting)
              (simp q (add_if-u64 (leb 400 resp.status_code) env.metrics.global_errors)),
        )

    execute-Counts :
        (r : PreparedRequest) (env : Env)
        → let x = execute_request add host_of handles hooks send r env in Counts env (x.0 ∷ []) x.1
    unfolding execute_request
    execute-Counts r env = go (apply_request_options r)
      where
        fired : Env
        fired = record env { world = fire_request hooks r.method r.url r.headers env.world }

        go :
            (o : PyResult (List BuilderCall))
            → let x : PyResult Received × Env = elim o [
              | err e ↦ (err e, fired)
              | ok calls ↦
                  received add host_of handles hooks send (send calls fired).0 (send calls fired).1
            ] in
              Counts env (x.0 ∷ []) x.1
        go (err e) = (omega arith, omega arith)
        go (ok calls) =
            received-Counts (send calls fired).0 env (send calls fired).1 (quiet calls fired)

    -- While somebody holds the metrics collector besides the library (`handles` is its strong count),
    -- and where the library's sending does not touch it, it counts of the requests sent one after the
    -- other exactly those that were answered, whatever the status, and as errors exactly the answers
    -- with a status of 400 or more. A request whose options or whose sending fails is in neither
    -- count.
    pub execute_all-Counts :
        (rs : List PreparedRequest) (env : Env)
        → Counts env (execute_all rs env).0 (execute_all rs env).1
    unfolding execute_all
    execute_all-Counts [] env = (omega arith, omega arith)
    execute_all-Counts (r ∷ rs) env =
        let (a, b) = execute-Counts r env in
        let (c, d) =
          execute_all-Counts rs (execute_request add host_of handles hooks send r env).1 in
        (omega arith, omega arith)
