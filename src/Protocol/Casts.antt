-- ===== src/Protocol/Casts.antt =====
-- What the protocols of mobile/web/drift_worker.dart.js use of Dart's and JavaScript's values: casts,
-- indices, and the texts of objects. `none` is an exception.
use Prim.Native.String.{String}
use package.text.Mathlib.Text.{◌==◌ as str_eq}
use bojairu.Prelude.{
  ℕ, zero, suc, ◌-◌, ◌%◌, ◌==◌, ◌≡◌, refl, ap, Bool, Option, none, some, List, [], ◌∷◌, ◌++◌, map,
  if◌then◌else◌,
}
use bojairu.Prelude.Int.{ℤ, pos, negsuc}
use bojairu.Protocol.{
  Wire, null, int, text, bytes, array, to_list, from_list, StatementMethod, custom,
  delete_or_update, insert_method, select, Control, begin_transaction, commit, rollback,
  start_exclusive, end_exclusive, Dialect, sqlite, mysql, postgres, duckdb, mariadb, UpdateKind,
  insert_kind, update_kind, delete_kind, SqliteError, Failure, exception, object, sqlite_error,
}

-- The texts of the big integers (`A.a7.i` and `A.ow`) and of other objects (`J.b1`), and the
-- comparison with a number that converts its operand.
pub record Texts : Type 0 where
  pub show : ℤ → String
  pub parse : String → Option ℤ
  pub to_string : Wire → String
  pub show_sqlite : SqliteError → String
  -- JavaScript's `w == n`.
  pub loosely : Wire → ℕ → Bool
  pub parse-show : (z : ℤ) → parse (show z) ≡ some z
  pub loosely_int : (m n : ℕ) → loosely (int (pos m)) n ≡ (m == n)

-- `A.A`, `A.vl`, `A.a_`, `A.qR` and `A.X`.
abbrev pub as_int : Wire → Option ℤ
as_int (int z) = some z
as_int _ = none

abbrev pub as_int_or_null : Wire → Option (Option ℤ)
as_int_or_null null = some none
as_int_or_null (int z) = some (some z)
as_int_or_null _ = none

abbrev pub as_text : Wire → Option String
as_text (text s) = some s
as_text _ = none

abbrev pub as_text_or_null : Wire → Option (Option String)
as_text_or_null null = some none
as_text_or_null (text s) = some (some s)
as_text_or_null _ = none

-- The elements of a Dart list: an array, or a `Uint8Array`.
abbrev pub elements : Wire → Option (List Wire)
elements (array ws) = some (to_list ws)
elements (bytes bs) = some (map (λ b. int (pos b)) bs)
elements _ = none

-- The elements of a JavaScript array.
abbrev pub as_array : Wire → Option (List Wire)
as_array (array ws) = some (to_list ws)
as_array _ = none

-- `J.aJ(a, i)`, which throws behind the end, and JavaScript's `a[i]`, which does not.
abbrev pub at {ℓ} : {A : Type ℓ} → List A → ℕ → Option A
at [] i = none
at (x ∷ xs) zero = some x
at (x ∷ xs) (suc i) = at xs i

abbrev pub js_at : List Wire → ℕ → Wire
js_at [] i = null
js_at (x ∷ xs) zero = x
js_at (x ∷ xs) (suc i) = js_at xs i

-- `J.nZ`
abbrev pub last : List Wire → Option Wire
last [] = none
last (x ∷ []) = some x
last (x ∷ (y ∷ ys)) = last (y ∷ ys)

-- A constant list at an index that was received.
abbrev pub at_int {ℓ} : {A : Type ℓ} → List A → ℤ → Option A
at_int xs (pos n) = at xs n
at_int xs (negsuc n) = none

abbrev pub methods : List StatementMethod
methods = custom ∷ (delete_or_update ∷ (insert_method ∷ (select ∷ [])))

abbrev pub controls : List Control
controls = begin_transaction ∷ (commit ∷ (rollback ∷ (start_exclusive ∷ (end_exclusive ∷ []))))

abbrev pub update_kinds : List UpdateKind
update_kinds = insert_kind ∷ (update_kind ∷ (delete_kind ∷ []))

abbrev pub method_index : StatementMethod → ℤ
method_index custom = pos 0
method_index delete_or_update = pos 1
method_index insert_method = pos 2
method_index select = pos 3

abbrev pub control_index : Control → ℤ
control_index begin_transaction = pos 0
control_index commit = pos 1
control_index rollback = pos 2
control_index start_exclusive = pos 3
control_index end_exclusive = pos 4

abbrev pub kind_index : UpdateKind → ℤ
kind_index insert_kind = pos 0
kind_index update_kind = pos 1
kind_index delete_kind = pos 2

abbrev pub dialect_name : Dialect → String
dialect_name sqlite = "sqlite"
dialect_name mysql = "mysql"
dialect_name postgres = "postgres"
dialect_name duckdb = "duckdb"
dialect_name mariadb = "mariadb"

-- `A.o1` over the dialects.
unfoldable pub dialect_by_name : String → Option Dialect
dialect_by_name s =
    if str_eq "sqlite" s
    then some sqlite
    else (if str_eq "mysql" s
        then some mysql
        else (if str_eq "postgres" s
            then some postgres
            else (if str_eq "duckdb" s
                then some duckdb
                else (if str_eq "mariadb" s then some mariadb else none))))

pub dialect_by_name-dialect_name : (d : Dialect) → dialect_by_name (dialect_name d) ≡ some d
unfolding dialect_by_name
dialect_by_name-dialect_name sqlite = refl
dialect_by_name-dialect_name mysql = refl
dialect_by_name-dialect_name postgres = refl
dialect_by_name-dialect_name duckdb = refl
dialect_by_name-dialect_name mariadb = refl

-- What a `Uint8Array` keeps of an integer.
abbrev pub to_byte : ℤ → ℕ
to_byte (pos n) = n % 256
to_byte (negsuc n) = 255 - n % 256

abbrev pub int_or_null : Option ℤ → Wire
int_or_null none = null
int_or_null (some z) = int z

abbrev pub text_or_null : Option String → Wire
text_or_null none = null
text_or_null (some s) = text s

pub as_int_or_null-int_or_null : (o : Option ℤ) → as_int_or_null (int_or_null o) ≡ some o
as_int_or_null-int_or_null none = refl
as_int_or_null-int_or_null (some z) = refl

pub as_text_or_null-text_or_null : (o : Option String) → as_text_or_null (text_or_null o) ≡ some o
as_text_or_null-text_or_null none = refl
as_text_or_null-text_or_null (some s) = refl

pub to_list-from_list : (ws : List Wire) → to_list (from_list ws) ≡ ws
to_list-from_list [] = refl
to_list-from_list (w ∷ ws) = ap (λ l. w ∷ l) (to_list-from_list ws)

-- `J.b1` of an error.
unfoldable pub show_failure : Texts → Failure → String
show_failure t (exception s) = s
show_failure t (object w) = t.to_string w
show_failure t (sqlite_error e) = t.show_sqlite e

pub at_int-method_index : (m : StatementMethod) → at_int methods (method_index m) ≡ some m
at_int-method_index custom = refl
at_int-method_index delete_or_update = refl
at_int-method_index insert_method = refl
at_int-method_index select = refl

pub at_int-control_index : (c : Control) → at_int controls (control_index c) ≡ some c
at_int-control_index begin_transaction = refl
at_int-control_index commit = refl
at_int-control_index rollback = refl
at_int-control_index start_exclusive = refl
at_int-control_index end_exclusive = refl

pub last-append : (ws : List Wire) (w : Wire) → last (ws ++ (w ∷ [])) ≡ some w
last-append [] w = refl
last-append (x ∷ []) w = refl
last-append (x ∷ (y ∷ ys)) w = last-append (y ∷ ys) w
