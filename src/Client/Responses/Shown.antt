-- ===== src/Client/Responses/Shown.antt =====
-- A table that the server sends holds no error, so it goes to the handler of its endpoint.
use sage_store.Prelude.{String, ◌≡◌, ◌∙◌, refl, ap, List, [], ◌∷◌, ◌++◌, Option, some, none}
use sage_store.Prelude.Assoc.{find}
use sage_store.DataSpecs.{Data, Dataset, table_response}
use sage_store.DataSpecs.Columns.{values, column, cells_of, all_cells_of, column-table_response}
use sage_store.Client.{Method}
use sage_store.Client.Tables.Listed.{SameLookups}
use sage_store.Client.Signals.{Signal}
use sage_store.Client.Responses.{error_message, handled_by}

no_message : (o : Option Data) → values o ≡ [] → error_message o ≡ ""
unfolding error_message
no_message none h = refl
no_message (some errors) h = rw h refl

handled_by-no_message :
    (handler : Method → Dataset → Option Signal) (method : Method) (d : Dataset)
    → column "error" d ≡ []
    → handled_by (some handler) method d ≡ handler method d
unfolding handled_by
handled_by-no_message handler method d h = rw (no_message (find "error" d) h) refl

module _ {E : Type 0} (keys : List String) (cells : E → List (String × String)) where
  no_cells :
      ((e : E) → cells_of "error" (cells e) ≡ [])
      → (es : List E) → all_cells_of "error" cells es ≡ []
  unfolding all_cells_of
  no_cells h [] = refl
  no_cells h (e ∷ es) = ap (λ c. c ++ all_cells_of "error" cells es) (h e) ∙ no_cells h es

  pub shown_of :
      (handler : Method → Dataset → Option Signal) (method : Method) {signal : Option Signal}
      → ((e : E) → cells_of "error" (cells e) ≡ [])
      → (es : List E) (d : Dataset) → SameLookups d (table_response keys cells es).dataset
      → handler method d ≡ signal
      → handled_by (some handler) method d ≡ signal
  shown_of handler method h es d alike same =
      handled_by-no_message handler method _
        (ap values (alike "error") ∙ column-table_response "error" cells keys es ∙ no_cells h es)
      ∙ same
