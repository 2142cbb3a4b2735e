-- ===== src/Protocol/First.antt =====
-- The first encoding of the Drift protocol, `A.h4` of mobile/web/drift_worker.dart.js: its values.
pub mod Encoding
pub mod Decoding
pub mod RoundTrip
use Prim.Native.String.{String}
use package.text.Mathlib.Text.{◌==◌ as str_eq}
use bojairu.Prelude.{
  ℕ, zero, suc, ◌+◌, ◌*◌, ◌-◌, Bool, true, false, Option, none, some, List, [], ◌∷◌, ◌++◌, map,
  if◌then◌else◌, length, take, drop, leb, ◌==◌,
}
use bojairu.Prelude.Int.{ℤ, pos, negsuc, ◌>>=◌, traverse, map_option}
use bojairu.Protocol.{
  Wire, null, bool, int, double, text, bytes, array, id_object, rows_object, to_list, list, Value,
  null_value, bool_value, int_value, double_value, text_value, big_value, bytes_value, int_list,
  StatementMethod, Control, Dialect, UpdateKind, BatchArgs, TableUpdate, Request, terminate_all,
  execute_query, execute_batched, run_transaction, ensure_open, server_info, run_before_open,
  tables_updated, cancel_request, Row, Response, primitive_bool, primitive_int, primitive_other,
  select_result, ProtocolMessage, request_message, success_response, error_response,
  cancelled_response, object,
}
use bojairu.Protocol.Casts.{
  Texts, as_int, as_int_or_null, as_text, as_text_or_null, elements, at, at_int, methods, controls,
  update_kinds, method_index, control_index, kind_index, dialect_name, dialect_by_name, to_byte,
  int_or_null, text_or_null, show_failure,
}

-- What `h2` encodes and `h0` decodes.
pub data Payload : Type 0 where
  nothing : Payload
  of_request : Request → Payload
  of_response : Response → Payload

module _ (t : Texts) where
  -- `dG`
  unfoldable pub encode_value : Value → Wire
  encode_value null_value = null
  encode_value (bool_value b) = bool b
  encode_value (int_value z) = int z
  encode_value (double_value d) = double d
  encode_value (text_value s) = text s
  encode_value (big_value z) = list (text "bigint" ∷ (text (t.show z) ∷ []))
  encode_value (bytes_value bs) = bytes bs
  encode_value (int_list zs) = bytes (map to_byte zs)

  -- `J.b1` where the text of a big integer is expected.
  abbrev text_of_wire : Wire → String
  text_of_wire (text s) = s
  text_of_wire w = t.to_string w

  -- The two cases of `dE` for a list.
  unfoldable pub decode_list : List Wire → Option Value
  decode_list (text s ∷ (w ∷ [])) =
      if str_eq s "bigint" then map_option big_value (t.parse (text_of_wire w)) else none
  decode_list ws = map_option (λ zs. bytes_value (map to_byte zs)) (traverse as_int ws)

  -- `dE`
  unfoldable pub decode_value : Wire → Option Value
  unfolding decode_list
  decode_value null = some null_value
  decode_value (bool b) = some (bool_value b)
  decode_value (int z) = some (int_value z)
  decode_value (double d) = some (double_value d)
  decode_value (text s) = some (text_value s)
  decode_value (bytes bs) = some (bytes_value bs)
  decode_value (array ws) = decode_list (to_list ws)
  decode_value (id_object i p) = none
  decode_value (rows_object c r) = none
