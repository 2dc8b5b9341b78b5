-- ===== src/Enginenetx/HttpsDialer/Gather.antt =====
-- What a dial returns, from what its attempts reported.
use mathlib.Core.List.{append_assoc, append-nil}
use ooni_probe_engine.Prelude.{
  ℕ, zero, suc, ◌≤◌, String, ◌≡◌, ◌≢◌, ◌↔◌, refl, sym, arith, Option, some, List, [], ◌∷◌, ◌++◌,
  true, false, Bool,
}
use ooni_probe_engine.Enginenetx.HttpsDialer.{
  Message, joined, got_error, got_conn, Collected, collect, Reduced, connection, joined_errors,
  dns_no_answer, reduce_result, dial_tls_context, parallelism,
}

module _ {Conn : Type 0} where
  -- The connections and the errors that are reported before `missing` workers have joined.
  abbrev pub conns : ℕ → List (Message Conn) → List Conn
  conns zero messages = []
  conns (suc missing) [] = []
  conns (suc missing) (joined ∷ messages) = conns missing messages
  conns (suc missing) (got_error err ∷ messages) = conns (suc missing) messages
  conns (suc missing) (got_conn conn ∷ messages) = conn ∷ conns (suc missing) messages

  abbrev pub errors : ℕ → List (Message Conn) → List String
  errors zero messages = []
  errors (suc missing) [] = []
  errors (suc missing) (joined ∷ messages) = errors missing messages
  errors (suc missing) (got_error err ∷ messages) = err ∷ errors (suc missing) messages
  errors (suc missing) (got_conn conn ∷ messages) = errors (suc missing) messages

  -- How many workers join.
  abbrev pub joins : List (Message Conn) → ℕ
  joins [] = 0
  joins (joined ∷ messages) = suc (joins messages)
  joins (got_error err ∷ messages) = joins messages
  joins (got_conn conn ∷ messages) = joins messages

  collect_lem :
      (missing : ℕ) (s : Collected Conn) (messages : List (Message Conn))
      → missing ≤ joins messages
      → (c : Bool) × (collect missing s messages
          ≡ some (record {
            connv = s.connv ++ conns missing messages;
            errorv = s.errorv ++ errors missing messages;
            canceled = c;
          }))
  unfolding collect
  collect_lem zero s messages h = (s.canceled, simp append-nil)
  collect_lem (suc missing) s [] h = absurd (omega arith)
  collect_lem (suc missing) s (joined ∷ messages) h = collect_lem missing s messages (omega arith)
  collect_lem (suc missing) s (got_error err ∷ messages) h =
      let (c, e) =
        collect_lem (suc missing) (record s { errorv = s.errorv ++ (err ∷ []) }) messages h in
      (c, simp append_assoc at e)
  collect_lem (suc missing) s (got_conn conn ∷ messages) h =
      let (c, e) =
        collect_lem (suc missing) (record s { connv = s.connv ++ (conn ∷ []); canceled = true })
          messages h in
      (c, simp append_assoc at e)

  gathered :
      (messages : List (Message Conn))
      → parallelism ≤ joins messages
      → dial_tls_context messages
        ≡ some (reduce_result (conns parallelism messages) (errors parallelism messages))
  unfolding dial_tls_context
  gathered messages h =
      let start : Collected Conn = record { connv = []; errorv = []; canceled = false } in
      let (c, e) = collect_lem parallelism start messages h in rw e

  -- Each result of a dial, and the reports that give it.
  abbrev Explained :
      Option (Reduced Conn) → List Conn → List String → Conn → List Conn → List String → Type 0
  Explained result cv ev conn others errs =
      ((result ≡ some (connection conn others)) ↔ (cv ≡ conn ∷ others))
      × ((result ≡ some (joined_errors errs)) ↔ ((cv ≡ []) × (ev ≡ errs) × (errs ≢ [])))
      × ((result ≡ some dns_no_answer) ↔ ((cv ≡ []) × (ev ≡ [])))

  reduce_result-Explained :
      (cv : List Conn) (ev : List String) (conn : Conn) (others : List Conn) (errs : List String)
      → Explained (some (reduce_result cv ev)) cv ev conn others errs
  unfolding reduce_result
  reduce_result-Explained (x ∷ cv) ev conn others errs =
      ((λ e. cc, λ e. cc), (λ e. cc, λ e. cc e.0), (λ e. cc, λ e. cc e.0))
  reduce_result-Explained [] (x ∷ ev) conn others errs =
      ((λ e. cc, λ e. cc), (λ e. (refl, cc, λ n. cc), λ e. cc e.1), (λ e. cc, λ e. cc e.1))
  reduce_result-Explained [] [] conn others errs =
      ((λ e. cc, λ e. cc), (λ e. cc, λ e. absurd (e.2 (sym e.1))), (λ e. (refl, refl), λ e. refl))

  -- Once all the workers have joined, the dial returns a connection and closes others exactly when
  -- those are the first and the further connections that were reported; it returns errors exactly
  -- when there was no connection and those are the errors reported, in order; and it returns the
  -- error that there was no answer exactly when nothing was reported.
  pub dial_tls_context-Explained :
      (messages : List (Message Conn)) (conn : Conn) (others : List Conn) (errs : List String)
      → parallelism ≤ joins messages
      → ((dial_tls_context messages ≡ some (connection conn others))
          ↔ (conns parallelism messages ≡ conn ∷ others))
        × ((dial_tls_context messages ≡ some (joined_errors errs)) ↔ (
            (conns parallelism messages ≡ []) × (errors parallelism messages ≡ errs) × (errs ≢ [])))
        × ((dial_tls_context messages ≡ some dns_no_answer)
            ↔ ((conns parallelism messages ≡ []) × (errors parallelism messages ≡ [])))
  dial_tls_context-Explained messages conn others errs h = rw (gathered messages h) (
      reduce_result-Explained (conns parallelism messages) (errors parallelism messages) conn others
        errs)
