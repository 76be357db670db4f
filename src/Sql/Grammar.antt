-- ===== src/Sql/Grammar.antt =====
-- The statements that the repositories execute, as SQL reads them: white space does not count but
-- between words.
use Prim.Native.Char.{Char, code}
use sage_store.Prelude.{
  ℕ, zero, suc, String, Bool, ◌≡◌, refl, ◌||◌, ◌&&◌, leb, List, [], ◌∷◌, Option, none, some, ◌==◌,
  length, is_blank, if◌then◌else◌,
}

-- What a statement puts into a column: a parameter, or `NULLIF(?, '')`.
pub data Value : Type 0 where
  param null_if_blank : Value

pub data Statement : Type 0 where
  insert : String → List String → List Value → Statement
  update_by_id : String → List (String × Value) → Statement
  delete_by_id : String → Statement
  select_all : List String → String → Statement
  select_by : List String → String → String → Statement

abbrev is_char : Char → ℕ → Bool
is_char c n = leb (code c) n && leb n (code c)

-- One of "(),;=?'", which are words of their own.
abbrev is_mark : Char → Bool
is_mark c =
    is_char c b'('
    || is_char c b')'
    || is_char c b','
    || is_char c b';'
    || is_char c b'='
    || is_char c b'?'
    || is_char c b'\''

abbrev emit : String → List String → List String
emit word rest = if is_blank word then rest else word ∷ rest

-- The word that the text begins with, and the words after it.
lex : String → String × List String
lex String.[] = ("", [])
lex (String.◌∷◌ c s) =
    let (word, rest) = lex s in
    if is_char c b' '
    then ("", emit word rest)
    else if is_mark c
    then ("", (String.◌∷◌ c "") ∷ emit word rest)
    else (String.◌∷◌ c word, rest)

unfoldable pub tokens : String → List String
unfolding lex
tokens s = let (word, rest) = lex s in emit word rest

infixl 5 ◌>>=◌ ◌>>◌
abbrev ◌>>=◌ : {A B : Type 0} → Option A → (A → Option B) → Option B
none >>= f = none
some a >>= f = f a

abbrev ◌>>◌ : {A B : Type 0} → Option A → Option B → Option B
m >> k = m >>= λ _. k

expect : String → List String → Option (List String)
expect word [] = none
expect word (t ∷ rest) = if t == word then some rest else none

next_word : List String → Option (String × List String)
next_word [] = none
next_word (t ∷ rest) = some (t, rest)

-- `?`, or `NULLIF(?, '')`
value : List String → Option (Value × List String)
unfolding expect next_word
value ts = do
  (word, rest) ← next_word ts
  if word == "?" then some (param, rest) else do
    ts1 ← expect "NULLIF" ts
    ts2 ← expect "(" ts1
    ts3 ← expect "?" ts2
    ts4 ← expect "," ts3
    ts5 ← expect "'" ts4
    ts6 ← expect "'" ts5
    ts7 ← expect ")" ts6
    some (null_if_blank, ts7)

-- `column = value`
assignment : List String → Option ((String × Value) × List String)
unfolding next_word expect value
assignment ts = do
  (column, rest) ← next_word ts
  after ← expect "=" rest
  (v, rest') ← value after
  some ((column, v), rest')

-- Items with commas between them: with as much fuel as there are words it comes to the end.
module _ {A : Type 0} (item : List String → Option (A × List String)) where
  comma_list : ℕ → List String → Option (List A × List String)
  comma_list zero ts = none
  comma_list (suc fuel) ts = do
    (x, rest) ← item ts
    elim (expect "," rest) [
      | none ↦ some (x ∷ [], rest)
      | some more ↦ do (xs, rest') ← comma_list fuel more; some (x ∷ xs, rest')
    ]

-- The end of a statement.
ends : {A : Type 0} → A → List String → Option A
ends x [] = none
ends x (t ∷ []) = if t == ";" then some x else none
ends x (_ ∷ _ ∷ _) = none

by_id : {A : Type 0} → A → List String → Option A
unfolding expect ends
by_id x ts = do
  ts1 ← expect "WHERE" ts
  ts2 ← expect "id" ts1
  ts3 ← expect "=" ts2
  ts4 ← expect "?" ts3
  ends x ts4

parse_insert : List String → Option Statement
unfolding expect next_word comma_list value ends
parse_insert ts = do
  ts1 ← expect "INTO" ts
  (table, ts2) ← next_word ts1
  ts3 ← expect "(" ts2
  (columns, ts4) ← comma_list next_word (length ts) ts3
  ts5 ← expect ")" ts4
  ts6 ← expect "VALUES" ts5
  ts7 ← expect "(" ts6
  (values, ts8) ← comma_list value (length ts) ts7
  ts9 ← expect ")" ts8
  ends (insert table columns values) ts9

parse_update : List String → Option Statement
unfolding expect next_word comma_list assignment by_id
parse_update ts = do
  (table, ts1) ← next_word ts
  ts2 ← expect "SET" ts1
  (assignments, ts3) ← comma_list assignment (length ts) ts2
  by_id (update_by_id table assignments) ts3

parse_delete : List String → Option Statement
unfolding expect next_word by_id
parse_delete ts = do
  ts1 ← expect "FROM" ts
  (table, ts2) ← next_word ts1
  by_id (delete_by_id table) ts2

-- after `SELECT columns FROM table`
parse_where : List String → String → List String → Option Statement
unfolding expect next_word ends
parse_where columns table ts = elim (expect "WHERE" ts) [
  | none ↦ ends (select_all columns table) ts
  | some ts1 ↦ do
    (column, ts2) ← next_word ts1
    ts3 ← expect "=" ts2
    ts4 ← expect "?" ts3
    ends (select_by columns table column) ts4
]

parse_select : List String → Option Statement
unfolding expect next_word comma_list parse_where
parse_select ts = do
  (columns, ts1) ← comma_list next_word (length ts) ts
  ts2 ← expect "FROM" ts1
  (table, ts3) ← next_word ts2
  parse_where columns table ts3

parse_tokens : List String → Option Statement
unfolding parse_insert parse_update parse_delete parse_select
parse_tokens [] = none
parse_tokens (t ∷ ts) =
    if t == "INSERT"
    then parse_insert ts
    else if t == "UPDATE"
    then parse_update ts
    else if t == "DELETE"
    then parse_delete ts
    else if t == "SELECT"
    then parse_select ts
    else none

-- The statement that a text is, if it is one of these.
unfoldable pub parse : String → Option Statement
unfolding parse_tokens
parse text = parse_tokens (tokens text)

parse_update_test :
    parse "UPDATE Log SET userId = NULLIF(?, ''), action = ?, timestamp = ? WHERE id = ?;"
    ≡ some (
        update_by_id "Log"
          (("userId", null_if_blank) ∷ ("action", param) ∷ ("timestamp", param) ∷ []))
unfolding parse tokens
parse_update_test = refl
