-- ===== src/Purchase/Status.antt =====
-- The status of a purchase order: `trimStatus` and `normalizeOrderStatus` of
-- BusinessLogic/PurchaseModule.cpp.
use Prim.Native.Char.{Char, code}
use sage_store.Prelude.{String, Bool, ◌||◌, ◌&&◌, ◌==◌, leb, is_blank, if◌then◌else◌}
use sage_store.Exec.{Result, ok, throw}

abbrev pub component : String
component = "PurchaseModule"

-- One of " \t\n\r\f\v".
abbrev pub is_space : Char → Bool
is_space c = (leb 9 (code c) && leb (code c) 13) || (leb 32 (code c) && leb (code c) 32)

-- From `find_first_not_of` on.
unfoldable pub trim_start : String → String
trim_start String.[] = ""
trim_start (String.◌∷◌ c s) = let rest = trim_start s in if is_space c then rest else String.◌∷◌ c s

-- Up to `find_last_not_of`.
unfoldable pub trim_end : String → String
trim_end String.[] = ""
trim_end (String.◌∷◌ c s) =
    let rest = trim_end s in if is_space c && is_blank rest then "" else String.◌∷◌ c rest

unfoldable pub trim_status : String → String
unfolding trim_start trim_end
trim_status value = trim_end (trim_start value)

unfoldable pub normalize_order_status : String → Result String
unfolding trim_status
normalize_order_status status =
    let normalized = trim_status status in
    if normalized == "Draft" || normalized == "Чернетка"
    then ok "Draft"
    else if normalized == "Ordered" || normalized == "Pending" || normalized == "Замовлено"
    then ok "Ordered"
    else if normalized == "Received" || normalized == "Отримано"
    then ok "Received"
    else throw component "Invalid purchase order status"
