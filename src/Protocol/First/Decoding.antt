-- ===== src/Protocol/First/Decoding.antt =====
-- `h0` and `ei` of `A.h4` in mobile/web/drift_worker.dart.js: the decoding of the messages.
use bojairu.Prelude.{
  ℕ, zero, suc, ◌+◌, ◌-◌, Option, none, some, List, [], ◌∷◌, if◌then◌else◌, length, take, drop, leb,
  ◌==◌,
}
use bojairu.Prelude.Dict.{insert, option_Eq, string_Eq}
use bojairu.Prelude.Int.{ℤ, pos, negsuc, ◌>>=◌, traverse}
use bojairu.Protocol.{
  Wire, null, bool, int, UpdateKind, BatchArgs, TableUpdate, Request, terminate_all, execute_query,
  execute_batched, run_transaction, ensure_open, server_info, run_before_open, tables_updated,
  cancel_request, Row, Response, primitive_bool, primitive_int, select_result, ProtocolMessage,
  request_message, success_response, error_response, cancelled_response, object,
}
use bojairu.Protocol.Casts.{
  last, Texts, as_int, as_int_or_null, as_text, as_text_or_null, elements, at, at_int, methods,
  controls, update_kinds, dialect_by_name,
}
use bojairu.Protocol.First.{Payload, nothing, of_request, of_response, decode_value}

module _ (t : Texts) where
  -- `q` and `p` of `h0`: `A.jY` and `A.jZ`.
  abbrev int_at : List Wire → ℕ → Option ℤ
  int_at xs i = at xs i >>= as_int

  abbrev int_or_null_at : List Wire → ℕ → Option (Option ℤ)
  int_or_null_at xs i = at xs i >>= as_int_or_null

  unfoldable pub decode_batch_args : Wire → Option BatchArgs
  unfolding decode_value
  decode_batch_args w = do
    xs ← elements w
    i ← int_at xs 0
    vs ← traverse (decode_value t) (drop 1 xs)
    some (record { statement = i; args = vs })

  -- `B.R[i]`
  abbrev kind_of_index : Option ℤ → Option UpdateKind
  kind_of_index none = none
  kind_of_index (some i) = at_int update_kinds i

  unfoldable pub decode_update : Wire → Option TableUpdate
  decode_update w = do
    xs ← elements w
    i ← int_or_null_at xs 1
    s ← at xs 0 >>= as_text
    some (record { kind = kind_of_index i; table = s })

  -- One row of tag 11: the values are put under the columns, in order.
  unfoldable pub decode_row : List Wire → List Wire → Row → Option Row
  unfolding decode_value
  decode_row [] vs row = some row
  decode_row (c ∷ cs) [] row = none
  decode_row (c ∷ cs) (v ∷ vs) row = do
    s ← as_text c
    x ← (decode_value t) v
    decode_row cs vs (insert (some s) x row)

  -- The loop over the rows.
  unfoldable pub decode_rows : ℕ → List Wire → List Wire → Option (List Row)
  unfolding decode_row
  decode_rows zero cs vs = some []
  decode_rows (suc n) cs vs = do
    r ← decode_row cs vs []
    rs ← decode_rows n cs (drop (length cs) vs)
    some (r ∷ rs)

  -- The range that `sublist(2, 2 + b)` takes of a list.
  abbrev sublist_from_two : List Wire → ℤ → Option (List Wire)
  sublist_from_two xs (negsuc b) = none
  sublist_from_two xs (pos b) = if leb (2 + b) (length xs) then some (take b (drop 2 xs)) else none

  -- `k < a0`
  abbrev count : ℤ → ℕ
  count (pos n) = n
  count (negsuc n) = 0

  unfoldable pub decode_select : List Wire → Option Response
  unfolding decode_rows
  decode_select (x ∷ []) = some (select_result [])
  decode_select xs = do
    b ← int_at xs 1
    cs ← sublist_from_two xs b
    n ← int_at xs (2 + length cs)
    rows ← decode_rows (count n) cs (drop (3 + length cs) xs)
    some (select_result rows)

  unfoldable pub decode_execute_query : List Wire → Option Payload
  unfolding decode_value
  decode_execute_query xs = do
    i ← int_at xs 1
    sql ← at xs 2 >>= as_text
    vs ← at xs 3 >>= elements
    args ← traverse (decode_value t) vs
    id ← int_or_null_at xs 4
    some (of_request (execute_query (at_int methods i) sql args id))

  unfoldable pub decode_execute_batched : List Wire → Option Payload
  unfolding decode_batch_args
  decode_execute_batched xs = do
    statements ← at xs 1 >>= elements
    args ← traverse decode_batch_args (take (length xs - 3) (drop 2 xs))
    id ← last xs >>= as_int_or_null
    some (of_request (execute_batched statements args id))

  unfoldable pub decode_run_transaction : List Wire → Option Payload
  decode_run_transaction xs = do
    i ← int_at xs 1
    id ← int_or_null_at xs 2
    some (of_request (run_transaction (at_int controls i) id))

  unfoldable pub decode_ensure_open : List Wire → Option Payload
  decode_ensure_open xs = do
    v ← int_at xs 1
    id ← int_or_null_at xs 2
    some (of_request (ensure_open v id))

  unfoldable pub decode_server_info : List Wire → Option Payload
  decode_server_info xs = do
    s ← at xs 1 >>= as_text
    d ← dialect_by_name s
    some (of_request (server_info d))

  unfoldable pub decode_run_before_open : List Wire → Option Payload
  decode_run_before_open xs = do
    old ← int_or_null_at xs 1
    new ← int_at xs 2
    id ← int_at xs 3
    some (of_request (run_before_open old new id))

  unfoldable pub decode_tables_updated : List Wire → Option Payload
  unfolding decode_update
  decode_tables_updated xs = do
    us ← traverse decode_update (drop 1 xs)
    some (of_request (tables_updated us))

  unfoldable pub decode_select_payload : List Wire → Option Payload
  unfolding decode_select
  decode_select_payload xs = do r ← decode_select xs; some (of_response r)

  unfoldable pub decode_cancel_request : List Wire → Option Payload
  decode_cancel_request xs = do i ← int_at xs 1; some (of_request (cancel_request i))

  unfoldable pub decode_primitive : List Wire → Option Payload
  decode_primitive xs = do i ← int_at xs 1; some (of_response (primitive_int i))

  -- The cases of `h0` by the tag.
  unfoldable pub decode_tagged : ℕ → List Wire → Option Payload
  decode_tagged n xs =
      if n == 0
      then some (of_request terminate_all)
      else if n == 3
      then decode_execute_query xs
      else if n == 4
      then decode_execute_batched xs
      else if n == 5
      then decode_run_transaction xs
      else if n == 6
      then decode_ensure_open xs
      else if n == 13
      then decode_server_info xs
      else if n == 7
      then decode_run_before_open xs
      else if n == 8
      then decode_tables_updated xs
      else if n == 11
      then decode_select_payload xs
      else if n == 12
      then decode_cancel_request xs
      else if n == 10
      then decode_primitive xs
      else none

  abbrev decode_tag : ℤ → List Wire → Option Payload
  decode_tag (pos n) xs = decode_tagged n xs
  decode_tag (negsuc n) xs = none

  -- `h0`. The tag of a bare number has no list beside it.
  unfoldable pub decode_payload : Wire → Option Payload
  unfolding decode_tagged
  decode_payload null = some nothing
  decode_payload (bool b) = some (of_response (primitive_bool b))
  decode_payload (int (pos zero)) = some (of_request terminate_all)
  decode_payload (int z) = none
  decode_payload w = do xs ← elements w; i ← int_at xs 0; decode_tag i xs

  -- The casts to `ax?` and `bH?`.
  abbrev as_request : Payload → Option (Option Request)
  as_request nothing = some none
  as_request (of_request r) = some (some r)
  as_request (of_response r) = none

  abbrev as_response : Payload → Option (Option Response)
  as_response nothing = some none
  as_response (of_request r) = none
  as_response (of_response r) = some (some r)

  -- `A.oH`
  abbrev not_null : Wire → Option Wire
  not_null null = none
  not_null w = some w

  unfoldable pub decode_request : ℤ → List Wire → Option (ProtocolMessage ℤ)
  decode_request id xs = do
    w ← at xs 2
    p ← decode_payload w
    r ← as_request p
    some (request_message id r)

  unfoldable pub decode_response : ℤ → List Wire → Option (ProtocolMessage ℤ)
  decode_response id xs = do
    w ← at xs 2
    p ← decode_payload w
    r ← as_response p
    some (success_response id r)

  unfoldable pub decode_error : ℤ → List Wire → Option (ProtocolMessage ℤ)
  decode_error id xs = do
    stack ← at xs 3 >>= as_text_or_null
    e ← at xs 2 >>= not_null
    some (error_response id (object e) stack)

  unfoldable pub decode_message : ℕ → ℤ → List Wire → Option (ProtocolMessage ℤ)
  decode_message n id xs =
      if n == 0
      then decode_request id xs
      else if n == 2
      then decode_error id xs
      else if n == 1
      then decode_response id xs
      else if n == 3
      then some (cancelled_response id)
      else none

  abbrev decode_message_tag : ℤ → ℤ → List Wire → Option (ProtocolMessage ℤ)
  decode_message_tag (pos n) id xs = decode_message n id xs
  decode_message_tag (negsuc n) id xs = none

  -- `ei`
  unfoldable pub decode : Wire → Option (ProtocolMessage ℤ)
  unfolding decode_message
  decode w = do xs ← elements w; tag ← int_at xs 0; id ← int_at xs 1; decode_message_tag tag id xs
