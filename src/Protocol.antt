-- ===== src/Protocol.antt =====
-- The Drift protocol of mobile/web/drift_worker.dart.js: the messages, and the JavaScript values that
-- they are sent as. The number types of Dart are told apart as in `A.bv`: an `int` is an integral
-- JavaScript number; any other number is given by the bits of the double.
pub mod Casts
mod Examples
pub mod First
pub mod Second
use Prim.Native.String.{String}
use bojairu.Prelude.{ℕ, Bool, Option, none, some, List, [], ◌∷◌, map}
use bojairu.Prelude.Int.{ℤ}

-- What `postMessage` carries. `null` is `undefined` as well. The two objects are `{i, p}` and
-- `{c, r}`.
mutual
  pub data Wire : Type 0 where
    null : Wire
    bool : Bool → Wire
    int : ℤ → Wire
    double : ℕ → Wire
    text : String → Wire
    bytes : List ℕ → Wire
    array : Wires → Wire
    id_object : Wire → Wire → Wire
    rows_object : Wire → Wire → Wire

  pub data Wires : Type 0 where
    end : Wires
    item : Wire → Wires → Wires

abbrev pub from_list : List Wire → Wires
from_list [] = end
from_list (w ∷ ws) = item w (from_list ws)

abbrev pub to_list : Wires → List Wire
to_list end = []
to_list (item w ws) = w ∷ to_list ws

abbrev pub list : List Wire → Wire
list ws = array (from_list ws)

-- The values of SQL. A big integer (`A.a7`) is given by its value. `int_list` is a list of integers
-- that is no `Uint8Array`.
pub data Value : Type 0 where
  null_value : Value
  bool_value : Bool → Value
  int_value : ℤ → Value
  double_value : ℕ → Value
  text_value : String → Value
  big_value : ℤ → Value
  bytes_value : List ℕ → Value
  int_list : List ℤ → Value

-- `A.cB`, `A.c1`, `A.c7` and `A.ds`, in the order of their indices (`B.U`, `B.V`, `B.T`, `B.R`).
pub data StatementMethod : Type 0 where
  custom delete_or_update insert_method select : StatementMethod

pub data Control : Type 0 where
  begin_transaction commit rollback start_exclusive end_exclusive : Control

pub data Dialect : Type 0 where
  sqlite mysql postgres duckdb mariadb : Dialect

pub data UpdateKind : Type 0 where
  insert_kind update_kind delete_kind : UpdateKind

-- `A.d0`: the statement's index, and its arguments.
pub record BatchArgs : Type 0 where
  pub statement : ℤ
  pub args : List Value

-- `A.bK`
pub record TableUpdate : Type 0 where
  pub kind : Option UpdateKind
  pub table : String

-- `A.ax`. A method or a control is `none` where JavaScript reads `undefined`, behind the list's end.
pub data Request : Type 0 where
  -- `A.de`
  terminate_all : Request
  -- `A.bW`
  execute_query : Option StatementMethod → String → List Value → Option ℤ → Request
  -- `A.bn` with `A.ea`; the statements are cast to texts as they are read.
  execute_batched : List Wire → List BatchArgs → Option ℤ → Request
  -- `A.c4`
  run_transaction : Option Control → Option ℤ → Request
  -- `A.bV`
  ensure_open : ℤ → Option ℤ → Request
  -- `A.c5`
  server_info : Dialect → Request
  -- `A.c3` with `A.eE`
  run_before_open : Option ℤ → ℤ → ℤ → Request
  -- `A.bF`
  tables_updated : List TableUpdate → Request
  -- `A.c2`
  cancel_request : ℤ → Request

-- A row is a map from its columns; `none` is a column that JavaScript reads as `undefined`.
abbrev pub Row : Type 0
Row = List (Option String × Value)

-- `A.bH`: `A.aO` with a Boolean, an integer, or something else, and `A.bI`.
pub data Response : Type 0 where
  primitive_bool : Bool → Response
  primitive_int : ℤ → Response
  primitive_other : Response
  select_result : List Row → Response

-- `A.c8`
pub record SqliteError : Type 0 where
  pub message : String
  pub explanation : Option String
  pub extended_code : ℤ
  pub offset : Option ℤ
  pub operation : Option String
  pub statement : Option String
  pub parameters : Option (List Value)

-- The error of an answer: an exception of the worker by its text, an object that came over the
-- channel, or one of SQLite.
pub data Failure : Type 0 where
  exception : String → Failure
  object : Wire → Failure
  sqlite_error : SqliteError → Failure

-- `A.ap`, `A.bf`, `A.bm` (with the text of the stack trace) and `A.bw`, by the type of the ids.
pub data ProtocolMessage (I : Type 0) : Type 0 where
  request_message : I → Option Request → ProtocolMessage I
  success_response : I → Option Response → ProtocolMessage I
  error_response : I → Failure → Option String → ProtocolMessage I
  cancelled_response : I → ProtocolMessage I
