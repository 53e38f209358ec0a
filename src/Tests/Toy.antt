-- ===== src/Tests/Toy.antt =====
-- A toy notation for JSON: the values of a text are put on a stack, each by the characters that build
-- it.
use Prim.Native.Char.{Char, code}
use claude_struct.Prelude.{
  ℕ, zero, suc, ◌≡◌, refl, ap, ◌∙◌, Bool, true, false, String, Option, some, none, List, [], ◌∷◌,
  ◌==◌, if◌then◌else◌,
}
use claude_struct.Json.{
  Json, null, bool, int, number, str, arr, obj, Items, nil, cons, Fields, end, field,
}

abbrev Stack : Type 0
Stack = List Json

abbrev add_one : Stack → Stack
add_one (int n ∷ st) = int (suc n) ∷ st
add_one st = st

abbrev add_char : Char → Stack → Stack
add_char c (str s ∷ st) = str (String.◌∷◌ c s) ∷ st
add_char c st = st

abbrev as_number : Stack → Stack
as_number (str s ∷ st) = number s ∷ st
as_number st = st

abbrev add_item : Stack → Stack
add_item (arr vs ∷ v ∷ st) = arr (cons v vs) ∷ st
add_item st = st

abbrev add_field : Stack → Stack
add_field (obj fs ∷ v ∷ str k ∷ st) = obj (field k v fs) ∷ st
add_field st = st

abbrev act : ℕ → Stack → Stack
act c st =
    if c == b'n'
    then null ∷ st
    else if c == b't'
    then bool true ∷ st
    else if c == b'f'
    then bool false ∷ st
    else if c == b'0'
    then int 0 ∷ st
    else if c == b'+'
    then add_one st
    else if c == b'$'
    then str "" ∷ st
    else if c == b'#'
    then as_number st
    else if c == b'a'
    then arr nil ∷ st
    else if c == b','
    then add_item st
    else if c == b'e'
    then obj end ∷ st
    else if c == b':'
    then add_field st
    else st

-- Whether the next character is one of a text's.
abbrev read_on : String → Bool → Stack → Stack
read_on String.[] quoted st = st
read_on (String.◌∷◌ c s) true st = read_on s false (add_char c st)
read_on (String.◌∷◌ c s) false st = read_on s (code c == b'=') (act (code c) st)

abbrev put : Char → String → String
put c s = String.◌∷◌ c s

abbrev count_onto : ℕ → String → String
count_onto zero s = put "0" s
count_onto (suc n) s = count_onto n (put "+" s)

abbrev text_onto : String → String → String
text_onto String.[] s = put "$" s
text_onto (String.◌∷◌ c t) s = text_onto t (put "=" (String.◌∷◌ c s))

abbrev mutual
  write_onto : Json → String → String
  write_onto null s = put "n" s
  write_onto (bool true) s = put "t" s
  write_onto (bool false) s = put "f" s
  write_onto (int n) s = count_onto n s
  write_onto (number t) s = text_onto t (put "#" s)
  write_onto (str t) s = text_onto t s
  write_onto (arr vs) s = items_onto vs s
  write_onto (obj fs) s = fields_onto fs s

  items_onto : Items → String → String
  items_onto nil s = put "a" s
  items_onto (cons v vs) s = write_onto v (items_onto vs (put "," s))

  fields_onto : Fields → String → String
  fields_onto end s = put "e" s
  fields_onto (field k v fs) s = text_onto k (write_onto v (fields_onto fs (put ":" s)))

reads_count :
    (n : ℕ) (s : String) (st : Stack)
    → read_on (count_onto n s) false st ≡ read_on s false (int n ∷ st)
reads_count zero s st = refl
reads_count (suc n) s st = reads_count n (put "+" s) st

reads_text :
    (t s : String) (st : Stack) → read_on (text_onto t s) false st ≡ read_on s false (str t ∷ st)
reads_text String.[] s st = refl
reads_text (String.◌∷◌ c t) s st = reads_text t (put "=" (put c s)) st

mutual
  reads_json :
      (v : Json) (s : String) (st : Stack)
      → read_on (write_onto v s) false st ≡ read_on s false (v ∷ st)
  reads_json null s st = refl
  reads_json (bool true) s st = refl
  reads_json (bool false) s st = refl
  reads_json (int n) s st = reads_count n s st
  reads_json (number t) s st = reads_text t _ st
  reads_json (str t) s st = reads_text t s st
  reads_json (arr vs) s st = reads_items vs s st
  reads_json (obj fs) s st = reads_fields fs s st

  reads_items :
      (vs : Items) (s : String) (st : Stack)
      → read_on (items_onto vs s) false st ≡ read_on s false (arr vs ∷ st)
  reads_items nil s st = refl
  reads_items (cons v vs) s st = reads_json v _ st ∙ reads_items vs _ _

  reads_fields :
      (fs : Fields) (s : String) (st : Stack)
      → read_on (fields_onto fs s) false st ≡ read_on s false (obj fs ∷ st)
  reads_fields end s st = refl
  reads_fields (field k v fs) s st = reads_text k _ st ∙ reads_json v _ _ ∙ reads_fields fs _ _

abbrev only : Stack → Option Json
only (v ∷ []) = some v
only _ = none

abbrev pub toy_dumps : Json → String
toy_dumps v = write_onto v ""

unfoldable pub toy_loads : String → Option Json
toy_loads s = only (read_on s false [])

pub toy_loads-toy_dumps : (v : Json) → toy_loads (toy_dumps v) ≡ some v
unfolding toy_loads
toy_loads-toy_dumps v = ap only (reads_json v "" [])
