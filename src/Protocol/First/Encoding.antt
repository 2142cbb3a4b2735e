-- ===== src/Protocol/First/Encoding.antt =====
-- `h2` and `dk` of `A.h4` in mobile/web/drift_worker.dart.js: the encoding of the messages.
use Prim.Native.String.{String}
use bojairu.Prelude.{Option, none, some, List, [], ◌∷◌, ◌++◌, map, length}
use bojairu.Prelude.Int.{ℤ, pos, ◌>>=◌, map_option}
use bojairu.Protocol.{
  Wire, null, bool, int, text, list, BatchArgs, TableUpdate, Request, terminate_all, execute_query,
  execute_batched, run_transaction, ensure_open, server_info, run_before_open, tables_updated,
  cancel_request, Row, Response, primitive_bool, primitive_int, primitive_other, select_result,
  ProtocolMessage, request_message, success_response, error_response, cancelled_response,
}
use bojairu.Protocol.Casts.{
  Texts, method_index, control_index, kind_index, dialect_name, int_or_null, text_or_null,
  show_failure,
}
use bojairu.Protocol.First.{Payload, nothing, of_request, of_response, encode_value}

module _ (t : Texts) where
  unfoldable pub encode_batch_args : BatchArgs → Wire
  encode_batch_args b = list (int b.statement ∷ map (encode_value t) b.args)

  unfoldable pub encode_update : TableUpdate → Wire
  encode_update u = list (text u.table ∷ (int_or_null (map_option kind_index u.kind) ∷ []))

  -- The columns of the first row.
  unfoldable pub columns : List Row → List (Option String)
  columns [] = []
  columns (r ∷ rows) = map (λ p. p.0) r

  unfoldable pub row_values : Row → List Wire
  row_values r = map (λ p. (encode_value t) p.1) r

  unfoldable pub all_values : List Row → List Wire
  unfolding row_values
  all_values [] = []
  all_values (r ∷ rows) = row_values r ++ all_values rows

  -- `h2`; `none` is an exception.
  unfoldable pub encode_request : Request → Option Wire
  unfolding encode_value encode_batch_args encode_update
  encode_request terminate_all = some (int (pos 0))
  encode_request (execute_query none sql args id) = none
  encode_request (execute_query (some m) sql args id) = some (
      list (
        int (pos 3)
        ∷ (int (method_index m)
            ∷ (text sql ∷ (list (map (encode_value t) args) ∷ (int_or_null id ∷ []))))))
  encode_request (execute_batched statements args id) = some (
      list
        (int (pos 4) ∷ (list statements ∷ (map encode_batch_args args ++ (int_or_null id ∷ [])))))
  encode_request (run_transaction none id) = none
  encode_request (run_transaction (some c) id) =
      some (list (int (pos 5) ∷ (int (control_index c) ∷ (int_or_null id ∷ []))))
  encode_request (ensure_open v id) = some (list (int (pos 6) ∷ (int v ∷ (int_or_null id ∷ []))))
  encode_request (server_info d) = some (list (int (pos 13) ∷ (text (dialect_name d) ∷ [])))
  encode_request (run_before_open old new id) =
      some (list (int (pos 7) ∷ (int_or_null old ∷ (int new ∷ (int id ∷ [])))))
  encode_request (tables_updated us) = some (list (int (pos 8) ∷ map encode_update us))
  encode_request (cancel_request id) = some (list (int (pos 12) ∷ (int id ∷ [])))

  unfoldable pub encode_response : Response → Option Wire
  unfolding columns all_values
  encode_response (primitive_bool b) = some (bool b)
  encode_response (primitive_int z) = some (list (int (pos 10) ∷ (int z ∷ [])))
  encode_response primitive_other = none
  encode_response (select_result []) = some (list (int (pos 11) ∷ []))
  encode_response (select_result (r ∷ rows)) = some (
      list (
        int (pos 11)
        ∷ (int (pos (length (columns (r ∷ rows))))
            ∷ (map text_or_null (columns (r ∷ rows))
                ++ (int (pos (length (r ∷ rows))) ∷ all_values (r ∷ rows))))))

  unfoldable pub encode_payload : Payload → Option Wire
  unfolding encode_request encode_response
  encode_payload nothing = some null
  encode_payload (of_request r) = encode_request r
  encode_payload (of_response r) = encode_response r

  -- `dk`
  unfoldable pub encode : ProtocolMessage ℤ → Option Wire
  unfolding encode_payload
  encode (request_message id none) = some (list (int (pos 0) ∷ (int id ∷ (null ∷ []))))
  encode (request_message id (some r)) = do
    p ← encode_request r
    some (list (int (pos 0) ∷ (int id ∷ (p ∷ []))))
  encode (success_response id none) = some (list (int (pos 1) ∷ (int id ∷ (null ∷ []))))
  encode (success_response id (some r)) = do
    p ← encode_response r
    some (list (int (pos 1) ∷ (int id ∷ (p ∷ []))))
  encode (error_response id e stack) =
      some (list (int (pos 2) ∷ (int id ∷ (text (show_failure t e) ∷ (text_or_null stack ∷ [])))))
  encode (cancelled_response id) = some (list (int (pos 3) ∷ (int id ∷ [])))
