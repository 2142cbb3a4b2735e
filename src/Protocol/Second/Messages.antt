-- ===== src/Protocol/Second/Messages.antt =====
-- `f8`, `ih` and `ei` of `A.i6` in mobile/web/drift_worker.dart.js: the decoding of whole messages. The
-- ids of requests and of successes are taken as they come; `i` and `p` of another object are `undefined`.
use bojairu.Prelude.{Option, none, some, List, [], ◌∷◌, if◌then◌else◌, length, leb, ◌==◌}
use bojairu.Prelude.Int.{ℤ, pos, negsuc, ◌>>=◌, traverse}
use bojairu.Protocol.{
  Wire, null, int, text, bytes, array, id_object, rows_object, Value, ProtocolMessage,
  request_message, success_response, error_response, cancelled_response, sqlite_error, object,
}
use bojairu.Protocol.Casts.{Texts, as_text, as_text_or_null, as_int, as_array, js_at}
use bojairu.Protocol.Second.{decode_value}
use bojairu.Protocol.Second.Decoding.{decode_request, decode_response}

module _ (t : Texts) where
  -- The parameters of `ih`.
  unfoldable pub decode_parameters : Wire → Option (Option (List Value))
  unfolding decode_value
  decode_parameters null = some none
  decode_parameters w = do xs ← as_array w; vs ← traverse (decode_value t) xs; some (some vs)

  -- `ih`
  unfoldable pub decode_sqlite_error : List Wire → Option (ProtocolMessage Wire)
  unfolding decode_parameters
  decode_sqlite_error xs =
      if leb 8 (length xs)
      then (do
        id ← as_int (js_at xs 0)
        code ← as_int (js_at xs 4)
        m ← as_text (js_at xs 2)
        explanation ← as_text_or_null (js_at xs 3)
        statement ← as_text_or_null (js_at xs 6)
        vs ← decode_parameters (js_at xs 7)
        operation ← as_text_or_null (js_at xs 5)
        stack ← as_text_or_null (js_at xs 1)
        some (
            error_response (int id)
              (sqlite_error (record {
                message = m;
                explanation = explanation;
                extended_code = code;
                offset = none;
                operation = operation;
                statement = statement;
                parameters = vs;
              }))
              stack))
      else none

  -- The content of tag 2.
  unfoldable pub decode_error : List Wire → Option (ProtocolMessage Wire)
  decode_error (n ∷ (p ∷ (o ∷ []))) = do
    id ← as_int n
    s ← as_text p
    stack ← as_text_or_null o
    some (error_response (int id) (object (text s)) stack)
  decode_error _ = none

  -- `A.m3`
  unfoldable pub decode_request_object : Wire → Option (ProtocolMessage Wire)
  unfolding decode_request
  decode_request_object (id_object i p) = do r ← decode_request t p; some (request_message i r)
  decode_request_object (rows_object c r) = some (request_message null none)
  decode_request_object (array ws) = some (request_message null none)
  decode_request_object (bytes bs) = some (request_message null none)
  decode_request_object _ = none

  -- `A.m4`
  unfoldable pub decode_response_object : Wire → Option (ProtocolMessage Wire)
  unfolding decode_response
  decode_response_object (id_object i p) = do r ← decode_response t p; some (success_response i r)
  decode_response_object (rows_object c r) = some (success_response null none)
  decode_response_object (array ws) = some (success_response null none)
  decode_response_object (bytes bs) = some (success_response null none)
  decode_response_object _ = none

  -- The cases of `ei` by the tag.
  unfoldable pub decode_tag : ℤ → Wire → Option (ProtocolMessage Wire)
  unfolding decode_request_object decode_response_object decode_error decode_sqlite_error
  decode_tag (pos n) q =
      if n == 0
      then decode_request_object q
      else if n == 1
      then decode_response_object q
      else if n == 2
      then as_array q >>= decode_error
      else if n == 4
      then as_array q >>= decode_sqlite_error
      else if n == 3
      then (do id ← as_int q; some (cancelled_response (int id)))
      else none
  decode_tag (negsuc n) q = none

  -- `ei`
  unfoldable pub decode : List Wire → Option (ProtocolMessage Wire)
  unfolding decode_tag
  decode (r ∷ (q ∷ [])) = do n ← as_int r; decode_tag n q
  decode _ = none
