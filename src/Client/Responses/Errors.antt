-- ===== src/Client/Responses/Errors.antt =====
-- What the client is told of a request that its module refuses.
use Prim.Native.String.{◌++◌}
use Prim.Native.String.compare
use text.Mathlib.TextLemmas.{nil-append, cons-append}
use sage_store.Prelude.{String, false, ◌≡◌, refl, Option, some, is_blank}
use sage_store.Prelude.Assoc.{find}
use sage_store.Exec.{Exception, server, standard, unreadable, err}
use sage_store.DataSpecs.{Dataset, RequestData}
use sage_store.Entities.{Log}
use sage_store.Repositories.{IRepository}
use sage_store.BusinessLogic.{ModuleRegistry, route, error_row, execute_task}
use sage_store.BusinessLogic.Audit.{execute_task_refused}
use sage_store.Client.{Method}
use sage_store.Client.Signals.{Signal, error_occurred}
use sage_store.Client.Responses.{error_message, response_handlers, handled_by, handle_response}

-- What is shown of an exception: its texts, each on a line.
unfoldable pub shown_error : Exception → String
shown_error (server e) = (e.component_name ++ "\n") ++ (e.message ++ "\n")
shown_error (standard what) = what ++ "\n"
shown_error unreadable = "Unreadable exception\n"

not_blank_append : (s t : String) → is_blank t ≡ false → is_blank (s ++ t) ≡ false
not_blank_append String.[] t h = rw (nil-append t) h
not_blank_append (String.◌∷◌ c s) t h =
    rw (cons-append c s t) (rw (compare.cons-nil c (s ++ t)) refl)

shown_error_lem : (e : Exception) → error_message (some (error_row e)) ≡ shown_error e
unfolding error_message error_row shown_error
shown_error_lem (server e) = rw (nil-append (e.component_name ++ "\n")) refl
shown_error_lem (standard what) = nil-append (what ++ "\n")
shown_error_lem unreadable = refl

shown_error_not_blank : (e : Exception) → is_blank (shown_error e) ≡ false
unfolding shown_error
shown_error_not_blank (server e) = not_blank_append _ _ (not_blank_append e.message "\n" refl)
shown_error_not_blank (standard what) = not_blank_append what "\n" refl
shown_error_not_blank unreadable = refl

module _ {S : Type 0} (modules : ModuleRegistry S) (logs : Option (IRepository S Log))
    (now : String) where
  -- A request that its module refuses, at an endpoint that the client knows, is shown to the user as an
  -- error with the texts of the exception, whatever was asked for.
  pub refusal_is_shown :
      (request : RequestData) (s s' : S) (e : Exception) (endpoint : String) (method : Method)
      (handler : Method → Dataset → Option Signal)
      → route modules request s ≡ (err e, s')
      → find endpoint response_handlers ≡ some handler
      → handle_response endpoint method (execute_task modules logs now request s).0.dataset
        ≡ some (error_occurred (shown_error e))
  unfolding handle_response handled_by
  refusal_is_shown request s s' e endpoint method handler refused there =
      rw
        (
          there,
          (execute_task_refused modules logs now request s s' e refused).0,
          shown_error_lem e,
          shown_error_not_blank e,
        )
        refl
