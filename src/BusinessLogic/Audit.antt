-- ===== src/BusinessLogic/Audit.antt =====
-- A change that succeeds leaves one entry in the audit log, and nothing else does.
use sage_store.BusinessLogic.Entry.{entry_of, audit_entry-eq-entry_of}
use sage_store.Prelude.{
  ◌==◌, eq_iff, arith, String, ◌≡◌, ◌⊎◌, refl, true, false, inl, inr, [], ◌∷◌, ◌++◌, Option, some,
}
use sage_store.Prelude.Assoc.{find, assign}
use sage_store.Exec.{Exception, server, standard, unreadable, Result, ok, err}
use sage_store.DataSpecs.{RequestData, ResponseData}
use sage_store.Entities.{Log}
use sage_store.Repositories.{IRepository}
use sage_store.Tables.{Columns, insert_row}
use sage_store.Tables.Laws.{Views, Written, IsTable}
use sage_store.BusinessLogic.{
  Bool, ModuleRegistry, error_row, with_error, swallow_standard, route, is_audited, audit, finish,
  execute_task,
}

abbrev pub is_refused : Result ResponseData → Bool
is_refused (ok _) = false
is_refused (err _) = true

-- What the client is given for what a module ends with.
abbrev pub shown : Result ResponseData → ResponseData
shown (ok response) = response
shown (err (server e)) = record { dataset = ("error", e.component_name ∷ e.message ∷ []) ∷ [] }
shown (err (standard what)) = record { dataset = ("error", what ∷ []) ∷ [] }
shown (err unreadable) = record { dataset = ("error", "Unreadable exception" ∷ []) ∷ [] }

module _ {S : Type 0} (modules : ModuleRegistry S) (logs : Option (IRepository S Log))
    (now : String) where
  -- A request that its module refuses is answered by the exception, under the key "error", and the
  -- state is what the module has left: no audit entry is written.
  pub execute_task_refused :
      (request : RequestData) (s s' : S) (e : Exception)
      → route modules request s ≡ (err e, s')
      → (find "error" (execute_task modules logs now request s).0.dataset ≡ some (error_row e))
        × ((execute_task modules logs now request s).1 ≡ s')
  unfolding execute_task with_error
  execute_task_refused request s s' e h = rw h (unfold assign find in refl, refl)

  -- A request that its module answers and that is not audited gets that answer.
  pub execute_task-answered :
      (request : RequestData) (s s' : S) (response : ResponseData)
      → route modules request s ≡ (ok response, s')
      → is_audited request ≡ false
      → execute_task modules logs now request s ≡ (response, s')
  unfolding execute_task audit
  execute_task-answered request s s' response h quiet = rw h (rw quiet refl)

  quiet :
      (request : RequestData)
      → (request.method ≡ "GET") ⊎ (request.module_name ≡ "logs")
      → is_audited request ≡ false
  unfolding is_audited
  quiet request (inl get) = ground (arith, get, eq_iff request.method "GET")
  quiet request (inr logs_module) = ground (arith, logs_module, eq_iff request.module_name "logs")

  ends :
      (request : RequestData) (s : S) (o : Result ResponseData × S)
      → ((request.method ≡ "GET") ⊎ (request.module_name ≡ "logs")) ⊎ (is_refused o.0 ≡ true)
      → route modules request s ≡ o
      → execute_task modules logs now request s ≡ (shown o.0, o.1)
  unfolding execute_task with_error error_row assign
  ends request s (ok response, s') (inl silent) e =
      execute_task-answered request s s' response e (quiet request silent)
  ends request s (ok response, s') (inr refused) e = absurd (cc refused)
  ends request s (err (server x), s') h e = rw e refl
  ends request s (err (standard x), s') h e = rw e refl
  ends request s (err unreadable, s') h e = rw e refl

  -- A GET request, a request to the module of the log, and one that its module refuses write no audit
  -- entry: the state is what the module has left. The answer is the module's, or, for an exception, the
  -- component and the message, or the text, of it under the key "error", and nothing else.
  pub execute_task_unaudited :
      (request : RequestData) (s : S)
      → ((request.method ≡ "GET") ⊎ (request.module_name ≡ "logs"))
        ⊎ (is_refused (route modules request s).0 ≡ true)
      → execute_task modules logs now request s
        ≡ (shown (route modules request s).0, (route modules request s).1)
  execute_task_unaudited request s h = ends request s (route modules request s) h refl

module _ {S : Type 0} {v : Views S} {c : Columns Log} {repository : IRepository S Log}
    (t : IsTable v (λ t. t.logs) (λ rows t. record t { logs = rows }) c repository)
    (modules : ModuleRegistry S) (now : String) where
  -- How a request ends that its module has answered and that is to be audited, by how the INSERT into
  -- the log ends.
  abbrev pub Audited :
      RequestData → S → ResponseData → Result (Unit {0}) → ResponseData × S → Type 0
  Audited request s response (ok _) (answer, s') =
      (answer ≡ response)
      × (v.view s' ≡ record (v.view s) {
        logs =
            (v.view s).logs
            ++ insert_row c (t.new_id (entry_of now request) s) (entry_of now request) ∷ [];
      })
  Audited request s response (err unreadable) (answer, s') =
      (answer.dataset ≡ assign "error" ("Unreadable exception" ∷ []) response.dataset)
      × (v.view s' ≡ v.view s)
  Audited request s response (err _) (answer, s') = (answer ≡ response) × (v.view s' ≡ v.view s)

  finish-Audited :
      (request : RequestData) (s : S) (response : ResponseData) (o : Result (Unit {0}) × S)
      → Written v
          (record (v.view s) {
            logs =
                (v.view s).logs
                ++ insert_row c (t.new_id (entry_of now request) s) (entry_of now request) ∷ [];
          })
          s
          o.0
          o.1
      → Audited request s response o.0 (finish response (swallow_standard o.0, o.1))
  unfolding finish swallow_standard with_error error_row
  finish-Audited request s response (ok _, s') w = (refl, w.0)
  finish-Audited request s response (err (server e), s') w = (refl, w.0)
  finish-Audited request s response (err (standard e), s') w = (refl, w.0)
  finish-Audited request s response (err unreadable, s') w = (refl, w.0)

  -- A request that is no GET, not to the module of the log, and that its module has answered, makes one
  -- INSERT into the log, of who, what and when. If that succeeds, the answer is the module's, and the
  -- tables are those that the module has left with the entry at the end of the log. If it throws, the
  -- tables are just those, and the answer is the module's all the same, but for an exception that is
  -- no std::exception, whose text stands under the key "error" in it.
  pub execute_task-Audited :
      (request : RequestData) (s s' : S) (response : ResponseData)
      → route modules request s ≡ (ok response, s')
      → (request.method == "GET") ≡ false
      → (request.module_name == "logs") ≡ false
      → Audited request s' response
          (repository.add (entry_of now request) s').0
          (execute_task modules (some repository) now request s)
  unfolding execute_task audit is_audited
  execute_task-Audited request s s' response h no_get no_logs =
      rw (h, no_get, no_logs, audit_entry-eq-entry_of)
        (finish-Audited request s' response (repository.add (entry_of now request) s')
          (t.add_lem (entry_of now request) s').holds)
