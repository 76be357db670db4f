-- ===== src/BusinessLogic/Entry.antt =====
-- What the audit log says of a request.
use Prim.Native.String.{◌++◌}
use text.Mathlib.TextLemmas.{append_assoc, append-nil}
use sage_store.Prelude.{String, ◌≡◌, refl, Bool-cases, inl, inr, is_blank, if◌then◌else◌}
use sage_store.Prelude.Assoc.{find}
use sage_store.DataSpecs.{RequestData}
use sage_store.Entities.{Log}
use sage_store.ModuleUtils.{front_or_blank, get_optional_dataset_value}
use sage_store.BusinessLogic.{audit_entry, build_audit_action}

-- Who, what and when.
abbrev pub entry_of : String → RequestData → Log
entry_of now request = record {
  id = "";
  user_id = front_or_blank (find "userId" request.dataset);
  action =
      request.module_name
      ++ "/"
      ++ request.submodule
      ++ " "
      ++ request.method
      ++ (if is_blank request.resource_id then "" else " #" ++ request.resource_id);
  timestamp = now;
}

pub audit_entry-eq-entry_of :
    (now : String) (request : RequestData) → audit_entry now request ≡ entry_of now request
unfolding audit_entry build_audit_action get_optional_dataset_value
audit_entry-eq-entry_of now request = elim (Bool-cases (is_blank request.resource_id)) [
  | inl blank ↦ rw blank (rw append-nil refl)
  | inr other ↦ rw other (rw (append_assoc, append_assoc, append_assoc, append_assoc) refl)
]
