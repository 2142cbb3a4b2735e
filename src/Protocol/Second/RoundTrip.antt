-- ===== src/Protocol/Second/RoundTrip.antt =====
-- Messages of `A.i6` in mobile/web/drift_worker.dart.js that are encoded by `dk` and decoded by `ei`.
pub mod Messages
use Prim.Native.String.{String}
use bojairu.Prelude.{
  ℕ, zero, suc, ◌+◌, ◌-◌, ◌≡◌, ◌≢◌, refl, sym, ap, ◌∙◌, Bool, true, false, Option, none, some, List,
  [], ◌∷◌, ◌++◌, map, length, take, drop, All, length-map, length-append, if◌then◌else◌, arith,
  drop-append, take-append, leb,
}
use bojairu.Prelude.Dict.{insert, lookup, insert_fresh, option_Eq, string_Eq}
use bojairu.Prelude.Int.{ℤ, pos, negsuc, ◌>>=◌, traverse, map_option, traverse-map}
use bojairu.Protocol.{
  Wire, null, bool, int, double, text, bytes, array, Value, null_value, bool_value, int_value,
  double_value, text_value, big_value, bytes_value, int_list, BatchArgs, TableUpdate,
  StatementMethod, Request, terminate_all, execute_query, execute_batched, run_transaction,
  ensure_open, server_info, run_before_open, tables_updated, cancel_request, Row, Response,
  primitive_bool, primitive_int, primitive_other, select_result, UpdateKind, insert_kind,
  delete_kind, update_kind, list, to_list, from_list,
}
use bojairu.Protocol.Casts.{
  last, Texts, as_text, text_or_null, as_int_or_null, int_or_null, as_int_or_null-int_or_null,
  to_list-from_list, dialect_by_name-dialect_name, last-append, at_int-method_index,
  at_int-control_index, as_array,
}
use bojairu.Protocol.First.RoundTrip.{
  received_value, received_row, IsTable, Distinct, Fresh, Fresh-insert, Fresh-none, map-some,
}
use bojairu.Protocol.First.RoundTrip.Requests.{
  received_args, received_request, received_response, IsSendableRequest, IsSendableResponse,
}
use bojairu.Protocol.Second.{
  encode_value, decode_value, decode_pair, encode_batch_args, encode_update, encode_request,
  encode_rows, encode_response,
}
use bojairu.Protocol.Second.Decoding.{
  decode_batch_args, decode_pair_of_update, decode_update, decode_execute_query,
  decode_execute_batched, decode_run_transaction, decode_ensure_open, decode_server_info,
  decode_run_before_open, decode_tables_updated, decode_cancel_request, decode_tagged,
  decode_request, decode_row, decode_rows, decode_response,
}

-- The statements of a batch are texts, on top of what the first encoding asks for.
abbrev pub HasTexts : Request → Type 0
HasTexts (execute_batched ss args id) = (texts : List String) × (ss ≡ map text texts)
HasTexts r = Unit

value_lem : (t : Texts) (v : Value) → decode_value t (encode_value t v) ≡ some (received_value v)
unfolding decode_value encode_value received_value decode_pair
value_lem t null_value = refl
value_lem t (bool_value b) = refl
value_lem t (int_value z) = refl
value_lem t (double_value d) = rw (t.loosely_int 15 14) refl
value_lem t (text_value s) = refl
value_lem t (big_value z) = rw (t.loosely_int 14 14, t.parse-show z) refl
value_lem t (bytes_value bs) = refl
value_lem t (int_list zs) = refl

values_lem :
    (t : Texts) (vs : List Value)
    → traverse (decode_value t) (map (encode_value t) vs) ≡ some (map received_value vs)
values_lem t = traverse-map (decode_value t) (encode_value t) received_value (value_lem t)

texts_lem : (ss : List String) → traverse as_text (map text ss) ≡ some ss
unfolding traverse
texts_lem [] = refl
texts_lem (s ∷ ss) = rw (texts_lem ss) refl

batch_args_lem :
    (t : Texts) (b : BatchArgs)
    → decode_batch_args t (encode_batch_args t b) ≡ some (received_args b)
unfolding decode_batch_args encode_batch_args received_args
batch_args_lem t b = rw (to_list-from_list (map (encode_value t) b.args), values_lem t b.args) refl

update_of :
    (t : Texts) (k : Option UpdateKind) (s : String)
    → decode_update t (encode_update t (record { kind = k; table = s }))
      ≡ some (record { kind = k; table = s })
unfolding decode_update encode_update decode_pair_of_update
update_of t none s = refl
update_of t (some insert_kind) s = refl
update_of t (some update_kind) s = refl
update_of t (some delete_kind) s = refl

updates_lem :
    (t : Texts) (us : List TableUpdate)
    → traverse (decode_update t) (map (encode_update t) us) ≡ some us
unfolding traverse
updates_lem t [] = refl
updates_lem t (u ∷ us) = rw (update_of t u.kind u.table, updates_lem t us) refl

batched_lem :
    (t : Texts) (ss : List String) (args : List BatchArgs) (id : Option ℤ)
    → (encode_request t (execute_batched (map text ss) args id) >>= decode_request t)
      ≡ some (some (execute_batched (map text ss) (map received_args args) id))
unfolding encode_request decode_request decode_tagged decode_execute_batched
batched_lem t ss args id =
    let last_item = int_or_null id ∷ [] in
    let ws = map (encode_batch_args t) args in
    let fits : leb 3 (suc (suc (length (ws ++ last_item)))) ≡ true =
      ground (arith, length-append ws last_item) in
    rw
      (
        texts_lem ss,
        to_list-from_list (ws ++ last_item),
        fits,
        to_list-from_list (map text ss),
        texts_lem ss,
        take-append ws last_item (suc (suc (length (ws ++ last_item))) - 3)
            (omega (arith, length-append ws last_item)),
        traverse-map (decode_batch_args t) (encode_batch_args t) received_args (batch_args_lem t)
            args,
        last-append (int (pos 4) ∷ (list (map text ss) ∷ ws)) (int_or_null id),
        as_int_or_null-int_or_null id,
      )
      refl

pub request_lem :
    (t : Texts) (r : Request)
    → IsSendableRequest r
    → HasTexts r
    → (encode_request t r >>= decode_request t) ≡ some (some (received_request r))
unfolding encode_request decode_request decode_tagged received_request decode_execute_query
    decode_run_transaction decode_ensure_open decode_server_info decode_run_before_open
    decode_tables_updated decode_cancel_request
request_lem t terminate_all h k = refl
request_lem t (execute_query none sql args id) h k = absurd (h refl)
request_lem t (execute_query (some m) sql args id) h k =
    rw
      (
        to_list-from_list (map (encode_value t) args),
        values_lem t args,
        as_int_or_null-int_or_null id,
        at_int-method_index m,
      )
      refl
request_lem t (execute_batched ss args id) h k = rw (k.1) (batched_lem t k.0 args id)
request_lem t (run_transaction none id) h k = absurd (h refl)
request_lem t (run_transaction (some c) id) h k =
    rw (as_int_or_null-int_or_null id, at_int-control_index c) refl
request_lem t (ensure_open v id) h k = rw (as_int_or_null-int_or_null id) refl
request_lem t (server_info d) h k = rw (dialect_by_name-dialect_name d) refl
request_lem t (run_before_open old new id) h k = rw (as_int_or_null-int_or_null old) refl
request_lem t (tables_updated us) h k =
    rw (to_list-from_list (map (encode_update t) us), updates_lem t us) refl
request_lem t (cancel_request id) h k = refl
