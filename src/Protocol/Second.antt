-- ===== src/Protocol/Second.antt =====
-- The second encoding of the Drift protocol, `A.i6` of mobile/web/drift_worker.dart.js: its values, and
-- the encoding of the messages.
pub mod Decoding
pub mod Messages
pub mod RoundTrip
use Prim.Native.String.{String}
use bojairu.Prelude.{
  ℕ, Bool, true, false, Option, none, some, List, [], ◌∷◌, ◌++◌, map, if◌then◌else◌, leb, ◌==◌,
}
use bojairu.Prelude.Int.{ℤ, pos, ◌>>=◌, traverse, map_option}
use bojairu.Protocol.{
  Wire, null, bool, int, double, text, bytes, array, id_object, rows_object, to_list, list, Value,
  null_value, bool_value, int_value, double_value, text_value, big_value, bytes_value, int_list,
  BatchArgs, TableUpdate, Request, terminate_all, execute_query, execute_batched, run_transaction,
  ensure_open, server_info, run_before_open, tables_updated, cancel_request, Row, Response,
  primitive_bool, primitive_int, primitive_other, select_result, SqliteError, ProtocolMessage,
  request_message, success_response, error_response, cancelled_response, sqlite_error, Failure,
}
use bojairu.Protocol.Casts.{
  Texts, as_text, as_int, method_index, control_index, kind_index, dialect_name, to_byte,
  int_or_null, text_or_null, show_failure,
}

-- `A.X`, where any number will do.
abbrev pub as_number : Wire → Option Value
as_number (int z) = some (int_value z)
as_number (double d) = some (double_value d)
as_number _ = none

module _ (t : Texts) where
  -- `cE`
  unfoldable pub encode_value : Value → Wire
  encode_value null_value = null
  encode_value (bool_value b) = bool b
  encode_value (int_value z) = int z
  encode_value (double_value d) = list (int (pos 15) ∷ (double d ∷ []))
  encode_value (text_value s) = text s
  encode_value (big_value z) = list (int (pos 14) ∷ (text (t.show z) ∷ []))
  encode_value (bytes_value bs) = bytes bs
  encode_value (int_list zs) = bytes (map to_byte zs)

  -- An array of `cD`: a big integer, or a double.
  unfoldable pub decode_pair : List Wire → Option Value
  decode_pair (r ∷ (q ∷ [])) =
      if t.loosely r 14 then (do s ← as_text q; z ← t.parse s; some (big_value z)) else as_number q
  decode_pair _ = none

  -- `cD`
  unfoldable pub decode_value : Wire → Option Value
  unfolding decode_pair
  decode_value null = some null_value
  decode_value (bool b) = some (bool_value b)
  decode_value (int z) = some (int_value z)
  decode_value (double d) = none
  decode_value (text s) = some (text_value s)
  decode_value (bytes bs) = some (bytes_value bs)
  decode_value (array ws) = decode_pair (to_list ws)
  decode_value (id_object i p) = none
  decode_value (rows_object c r) = none

  unfoldable pub encode_batch_args : BatchArgs → Wire
  encode_batch_args b = list (int b.statement ∷ map encode_value b.args)

  unfoldable pub encode_update : TableUpdate → Wire
  encode_update u = list (text u.table ∷ (int_or_null (map_option kind_index u.kind) ∷ []))

  -- `jf`; `none` is an exception.
  unfoldable pub encode_request : Request → Option Wire
  unfolding encode_value encode_batch_args encode_update
  encode_request terminate_all = some (int (pos 0))
  encode_request (execute_query none sql args id) = none
  encode_request (execute_query (some m) sql args id) = some (
      list (
        int (pos 3)
        ∷ (int (method_index m)
            ∷ (text sql ∷ (list (map encode_value args) ∷ (int_or_null id ∷ []))))))
  encode_request (execute_batched statements args id) = do
    ss ← traverse as_text statements
    some (
        list (
          int (pos 4)
          ∷ (list (map text ss) ∷ (map encode_batch_args args ++ (int_or_null id ∷ [])))))
  encode_request (run_transaction none id) = none
  encode_request (run_transaction (some c) id) =
      some (list (int (pos 5) ∷ (int (control_index c) ∷ (int_or_null id ∷ []))))
  encode_request (ensure_open v id) = some (list (int (pos 6) ∷ (int v ∷ (int_or_null id ∷ []))))
  encode_request (server_info d) = some (list (int (pos 13) ∷ (text (dialect_name d) ∷ [])))
  encode_request (run_before_open old new id) =
      some (list (int (pos 7) ∷ (int_or_null old ∷ (int new ∷ (int id ∷ [])))))
  encode_request (tables_updated us) = some (list (int (pos 8) ∷ map encode_update us))
  encode_request (cancel_request id) = some (list (int (pos 12) ∷ (int id ∷ [])))

  -- `jh`: the columns of the first row, and the values of each row.
  unfoldable pub encode_rows : List Row → Wire
  unfolding encode_value
  encode_rows [] = rows_object (list []) (list [])
  encode_rows (r ∷ rows) =
      rows_object (list (map (λ p. text_or_null p.0) r))
        (list (map (λ row. list (map (λ p. encode_value p.1) row)) (r ∷ rows)))

  -- `jg`
  unfoldable pub encode_response : Response → Option Wire
  unfolding encode_rows
  encode_response (primitive_bool b) = some (bool b)
  encode_response (primitive_int z) = some (int z)
  encode_response primitive_other = none
  encode_response (select_result rows) = some (encode_rows rows)

  abbrev pub parameters_or_null : Option (List Value) → Wire
  parameters_or_null none = null
  parameters_or_null (some vs) = list (map encode_value vs)

  -- The content of tag 4.
  unfoldable pub encode_sqlite_error : ℤ → SqliteError → Option String → Wire
  unfolding encode_value
  encode_sqlite_error id e stack = list (
      int id
      ∷ (text_or_null stack
          ∷ (text e.message
              ∷ (text_or_null e.explanation
                  ∷ (int e.extended_code
                      ∷ (text_or_null e.operation
                          ∷ (text_or_null e.statement
                              ∷ (parameters_or_null e.parameters ∷ []))))))))

  abbrev pub tagged : ℕ → Wire → Wire
  tagged n w = list (int (pos n) ∷ (w ∷ []))

  -- The error of `dk`: one of SQLite has a tag of its own since version 4.
  unfoldable pub encode_error : ℕ → ℤ → Failure → Option String → Wire
  unfolding encode_sqlite_error
  encode_error version id (sqlite_error e) stack =
      if leb 4 version
      then tagged 4 (encode_sqlite_error id e stack)
      else tagged 2
          (list (int id ∷ (text (show_failure t (sqlite_error e)) ∷ (text_or_null stack ∷ []))))
  encode_error version id e stack =
      tagged 2 (list (int id ∷ (text (show_failure t e) ∷ (text_or_null stack ∷ []))))

  -- `dk`, with the protocol's version of the other side.
  unfoldable pub encode : ℕ → ProtocolMessage ℤ → Option Wire
  unfolding encode_request encode_response encode_error
  encode version (request_message id none) = some (tagged 0 (id_object (int id) null))
  encode version (request_message id (some r)) = do
    p ← encode_request r
    some (tagged 0 (id_object (int id) p))
  encode version (success_response id none) = some (tagged 1 (id_object (int id) null))
  encode version (success_response id (some r)) = do
    p ← encode_response r
    some (tagged 1 (id_object (int id) p))
  encode version (error_response id e stack) = some (encode_error version id e stack)
  encode version (cancelled_response id) = some (tagged 3 (int id))
