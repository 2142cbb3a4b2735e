-- ===== src/Protocol/Second/Decoding.antt =====
-- `ik`, `il`, `ih` and `ei` of `A.i6` in mobile/web/drift_worker.dart.js: the decoding of the messages.
-- An index behind the end of an array reads as `null`.
use Prim.Native.String.{String}
use bojairu.Prelude.{
  ℕ, ◌-◌, Option, none, some, List, [], ◌∷◌, map, if◌then◌else◌, length, take, drop, leb, ◌==◌,
}
use bojairu.Prelude.Dict.{insert, option_Eq, string_Eq}
use bojairu.Prelude.Int.{ℤ, pos, negsuc, ◌>>=◌, traverse}
use bojairu.Protocol.{
  Wire, null, bool, int, double, text, rows_object, BatchArgs, TableUpdate, UpdateKind, Request,
  terminate_all, execute_query, execute_batched, run_transaction, ensure_open, server_info,
  run_before_open, tables_updated, cancel_request, Row, Response, primitive_bool, primitive_int,
  select_result,
}
use bojairu.Protocol.Casts.{
  Texts, as_text, as_int, as_int_or_null, as_array, at, js_at, at_int, last, methods, controls,
  update_kinds, dialect_by_name,
}
use bojairu.Protocol.Second.{decode_value}

module _ (t : Texts) where
  unfoldable pub decode_batch_args : Wire → Option BatchArgs
  unfolding decode_value
  decode_batch_args w = do
    xs ← as_array w
    i ← at xs 0 >>= as_int
    vs ← traverse (decode_value t) (drop 1 xs)
    some (record { statement = i; args = vs })

  abbrev kind_of_index : Option ℤ → Option UpdateKind
  kind_of_index none = none
  kind_of_index (some i) = at_int update_kinds i

  -- `A.lX`
  unfoldable pub decode_pair_of_update : List Wire → Option TableUpdate
  decode_pair_of_update (r ∷ (q ∷ [])) = do
    s ← as_text r
    i ← as_int_or_null q
    some (record { kind = kind_of_index i; table = s })
  decode_pair_of_update _ = none

  unfoldable pub decode_update : Wire → Option TableUpdate
  unfolding decode_pair_of_update
  decode_update w = as_array w >>= decode_pair_of_update

  unfoldable pub decode_execute_query : List Wire → Option Request
  unfolding decode_value
  decode_execute_query xs = do
    i ← as_int (js_at xs 1)
    sql ← as_text (js_at xs 2)
    vs ← as_array (js_at xs 3)
    args ← traverse (decode_value t) vs
    id ← as_int_or_null (js_at xs 4)
    some (execute_query (at_int methods i) sql args id)

  -- `A.lY`
  unfoldable pub decode_execute_batched : List Wire → Option Request
  unfolding decode_batch_args
  decode_execute_batched xs =
      if leb 3 (length xs)
      then (do
        ws ← as_array (js_at xs 1)
        ss ← traverse as_text ws
        args ← traverse decode_batch_args (take (length xs - 3) (drop 2 xs))
        id ← last xs >>= as_int_or_null
        some (execute_batched (map text ss) args id))
      else none

  unfoldable pub decode_run_transaction : List Wire → Option Request
  decode_run_transaction xs = do
    i ← as_int (js_at xs 1)
    id ← as_int_or_null (js_at xs 2)
    some (run_transaction (at_int controls i) id)

  unfoldable pub decode_ensure_open : List Wire → Option Request
  decode_ensure_open xs = do
    v ← as_int (js_at xs 1)
    id ← as_int_or_null (js_at xs 2)
    some (ensure_open v id)

  unfoldable pub decode_server_info : List Wire → Option Request
  decode_server_info xs = do s ← as_text (js_at xs 1); d ← dialect_by_name s; some (server_info d)

  unfoldable pub decode_run_before_open : List Wire → Option Request
  decode_run_before_open xs = do
    old ← as_int_or_null (js_at xs 1)
    new ← as_int (js_at xs 2)
    id ← as_int (js_at xs 3)
    some (run_before_open old new id)

  unfoldable pub decode_tables_updated : List Wire → Option Request
  unfolding decode_update
  decode_tables_updated xs = do us ← traverse decode_update (drop 1 xs); some (tables_updated us)

  unfoldable pub decode_cancel_request : List Wire → Option Request
  decode_cancel_request xs = do i ← as_int (js_at xs 1); some (cancel_request i)

  -- The cases of `ik` by the tag.
  unfoldable pub decode_tagged : ℕ → List Wire → Option Request
  unfolding decode_execute_query decode_execute_batched decode_run_transaction decode_ensure_open
      decode_server_info decode_run_before_open decode_tables_updated decode_cancel_request
  decode_tagged n xs =
      if n == 3
      then decode_execute_query xs
      else if n == 12
      then decode_cancel_request xs
      else if n == 4
      then decode_execute_batched xs
      else if n == 5
      then decode_run_transaction xs
      else if n == 6
      then decode_ensure_open xs
      else if n == 13
      then decode_server_info xs
      else if n == 7
      then decode_run_before_open xs
      else if n == 8
      then decode_tables_updated xs
      else none

  abbrev decode_tag : ℤ → List Wire → Option Request
  decode_tag (pos n) xs = decode_tagged n xs
  decode_tag (negsuc n) xs = none

  -- `ik`
  unfoldable pub decode_request : Wire → Option (Option Request)
  unfolding decode_tagged
  decode_request null = some none
  decode_request (int z) = some (some terminate_all)
  decode_request (double d) = some (some terminate_all)
  decode_request w = do xs ← as_array w; i ← as_int (js_at xs 0); r ← decode_tag i xs; some (some r)

  -- One row of `il`. A value without a column goes under `undefined`.
  unfoldable pub decode_row : List String → List Wire → Row → Option Row
  unfolding decode_value
  decode_row cs [] row = some row
  decode_row [] (v ∷ vs) row = do x ← decode_value t v; decode_row [] vs (insert none x row)
  decode_row (c ∷ cs) (v ∷ vs) row = do
    x ← decode_value t v
    decode_row cs vs (insert (some c) x row)

  unfoldable pub decode_rows : Wire → Wire → Option Response
  unfolding decode_row
  decode_rows c r = do
    cs ← as_array c
    columns ← traverse as_text cs
    rs ← as_array r
    rows ← traverse (λ w. as_array w >>= (λ vs. decode_row columns vs [])) rs
    some (select_result rows)

  -- `il`
  unfoldable pub decode_response : Wire → Option (Option Response)
  unfolding decode_rows
  decode_response null = some none
  decode_response (bool b) = some (some (primitive_bool b))
  decode_response (int z) = some (some (primitive_int z))
  decode_response (rows_object c r) = do x ← decode_rows c r; some (some x)
  decode_response _ = none
