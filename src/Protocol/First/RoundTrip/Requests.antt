-- ===== src/Protocol/First/RoundTrip/Requests.antt =====
-- Requests of `A.h4` in mobile/web/drift_worker.dart.js that are encoded by `h2` and decoded by `h0`.
use Prim.Native.String.{String}
use bojairu.Prelude.{
  suc, ◌-◌, ◌≡◌, ◌≢◌, refl, true, false, Option, none, some, List, [], ◌∷◌, ◌++◌, map, length,
  length-append, arith, take-append,
}
use bojairu.Prelude.Int.{ℤ, pos, ◌>>=◌, traverse, traverse-map}
use bojairu.Protocol.{
  Wire, int, Value, BatchArgs, TableUpdate, Request, terminate_all, execute_query, execute_batched,
  run_transaction, ensure_open, server_info, run_before_open, tables_updated, cancel_request,
  Response, primitive_other, select_result, insert_kind, delete_kind, update_kind, UpdateKind, list,
}
use bojairu.Protocol.Casts.{
  last-append, at_int-method_index, at_int-control_index, Texts, int_or_null,
  as_int_or_null-int_or_null, to_list-from_list, dialect_by_name-dialect_name,
}
use bojairu.Protocol.First.{encode_value, decode_value, of_request}
use bojairu.Protocol.First.Encoding.{encode_batch_args, encode_update, encode_request}
use bojairu.Protocol.First.Decoding.{
  decode_batch_args, decode_update, decode_execute_query, decode_execute_batched,
  decode_run_transaction, decode_ensure_open, decode_server_info, decode_run_before_open,
  decode_tables_updated, decode_cancel_request, decode_tagged, decode_payload,
}
use bojairu.Protocol.First.RoundTrip.{
  received_value, received_row, IsTable, decode_value-encode_value,
}

-- What the other side receives.
unfoldable pub received_args : BatchArgs → BatchArgs
received_args b = record { statement = b.statement; args = map received_value b.args }

unfoldable pub received_request : Request → Request
unfolding received_args
received_request (execute_query m sql args id) = execute_query m sql (map received_value args) id
received_request (execute_batched ss args id) = execute_batched ss (map received_args args) id
received_request r = r

unfoldable pub received_response : Response → Response
received_response (select_result rows) = select_result (map received_row rows)
received_response r = r

-- The requests and responses that the encoding has a form for: a method or a control that exists, a
-- primitive that is a Boolean or an integer, and rows with the same distinct columns.
abbrev pub IsSendableRequest : Request → Type 0
IsSendableRequest (execute_query m sql args id) = m ≢ none
IsSendableRequest (run_transaction c id) = c ≢ none
IsSendableRequest r = Unit

abbrev pub IsSendableResponse : Response → Type 0
IsSendableResponse primitive_other = true ≡ false
IsSendableResponse (select_result rows) = (names : List String) × IsTable names rows
IsSendableResponse r = Unit

values_lem :
    (t : Texts) (vs : List Value)
    → traverse (decode_value t) (map (encode_value t) vs) ≡ some (map received_value vs)
values_lem t =
    traverse-map (decode_value t) (encode_value t) received_value (decode_value-encode_value t)

batch_args_lem :
    (t : Texts) (b : BatchArgs)
    → decode_batch_args t (encode_batch_args t b) ≡ some (received_args b)
unfolding decode_batch_args encode_batch_args received_args
batch_args_lem t b = rw (to_list-from_list (map (encode_value t) b.args), values_lem t b.args) refl

update_of :
    (t : Texts) (k : Option UpdateKind) (s : String)
    → decode_update t (encode_update t (record { kind = k; table = s }))
      ≡ some (record { kind = k; table = s })
unfolding decode_update encode_update
update_of t none s = refl
update_of t (some insert_kind) s = refl
update_of t (some update_kind) s = refl
update_of t (some delete_kind) s = refl

updates_lem :
    (t : Texts) (us : List TableUpdate)
    → traverse (decode_update t) (map (encode_update t) us) ≡ some us
unfolding traverse
updates_lem t [] = refl
updates_lem t (u ∷ us) = rw (update_of t u.kind u.table, updates_lem t us) refl

batched_lem :
    (t : Texts) (ss : List Wire) (args : List BatchArgs) (id : Option ℤ)
    → (encode_request t (execute_batched ss args id) >>= decode_payload t)
      ≡ some (of_request (execute_batched ss (map received_args args) id))
unfolding encode_request decode_payload decode_tagged decode_execute_batched
batched_lem t ss args id =
    let last_item = int_or_null id ∷ [] in
    let ws = map (encode_batch_args t) args in
    rw
      (
        to_list-from_list (ws ++ last_item),
        take-append ws last_item (suc (suc (length (ws ++ last_item))) - 3)
            (omega (arith, length-append ws last_item)),
        traverse-map (decode_batch_args t) (encode_batch_args t) received_args (batch_args_lem t)
            args,
        last-append (int (pos 4) ∷ (list ss ∷ ws)) (int_or_null id),
        as_int_or_null-int_or_null id,
        to_list-from_list ss,
      )
      refl

pub request_lem :
    (t : Texts) (r : Request)
    → IsSendableRequest r
    → (encode_request t r >>= decode_payload t) ≡ some (of_request (received_request r))
unfolding encode_request decode_payload decode_tagged received_request decode_execute_query
    decode_execute_batched decode_run_transaction decode_ensure_open decode_server_info
    decode_run_before_open decode_tables_updated decode_cancel_request
request_lem t terminate_all h = refl
request_lem t (execute_query none sql args id) h = absurd (h refl)
request_lem t (execute_query (some m) sql args id) h =
    rw
      (
        to_list-from_list (map (encode_value t) args),
        values_lem t args,
        as_int_or_null-int_or_null id,
        at_int-method_index m,
      )
      refl
request_lem t (execute_batched ss args id) h = batched_lem t ss args id
request_lem t (run_transaction none id) h = absurd (h refl)
request_lem t (run_transaction (some c) id) h =
    rw (as_int_or_null-int_or_null id, at_int-control_index c) refl
request_lem t (ensure_open v id) h = rw (as_int_or_null-int_or_null id) refl
request_lem t (server_info d) h = rw (dialect_by_name-dialect_name d) refl
request_lem t (run_before_open old new id) h = rw (as_int_or_null-int_or_null old) refl
request_lem t (tables_updated us) h =
    rw (to_list-from_list (map (encode_update t) us), updates_lem t us) refl
request_lem t (cancel_request id) h = refl
