-- ===== src/Protocol/Second/RoundTrip/Messages.antt =====
-- Messages of `A.i6` in mobile/web/drift_worker.dart.js that are encoded by `dk` and decoded by `ei`:
-- rows, errors and whole messages.
use Prim.Native.String.{String}
use mathlib.Core.List.{append_assoc, append-nil}
use bojairu.Prelude.{
  ℕ, ◌≡◌, refl, sym, ap, Option, none, some, List, [], ◌∷◌, ◌++◌, map, if◌then◌else◌, leb, inl, inr,
  Bool-cases,
}
use bojairu.Prelude.Dict.{insert, insert_fresh, option_Eq, string_Eq}
use bojairu.Prelude.Int.{ℤ, ◌>>=◌, traverse, map_option}
use bojairu.Protocol.{
  Wire, int, text, id_object, Value, Request, Row, Response, primitive_bool, primitive_int,
  primitive_other, select_result, ProtocolMessage, request_message, success_response,
  error_response, cancelled_response, Failure, exception, object, sqlite_error, SqliteError, list,
}
use bojairu.Protocol.Casts.{
  Texts, text_or_null, as_array, to_list-from_list, as_text_or_null-text_or_null, show_failure,
}
use bojairu.Protocol.First.RoundTrip.{
  received_value, received_row, IsTable, Distinct, Fresh, Fresh-insert, Fresh-none,
}
use bojairu.Protocol.First.RoundTrip.Messages.{IsSendable}
use bojairu.Protocol.First.RoundTrip.Requests.{
  received_request, received_response, IsSendableResponse,
}
use bojairu.Protocol.Second.{
  tagged, parameters_or_null, encode_value, encode_request, encode_rows, encode_response,
  encode_sqlite_error, encode_error, encode,
}
use bojairu.Protocol.Second.Decoding.{decode_request, decode_row, decode_rows, decode_response}
use bojairu.Protocol.Second.Messages.{
  decode_parameters, decode_sqlite_error, decode_error, decode_request_object,
  decode_response_object, decode_tag, decode,
}
use bojairu.Protocol.Second.RoundTrip.{value_lem, values_lem, texts_lem, request_lem, HasTexts}

abbrev row_wires : Texts → Row → List Wire
row_wires t r = map (λ p. encode_value t p.1) r

decode_row_lem :
    (t : Texts) (names : List String) (r m : Row)
    → map (λ p. p.0) r ≡ map some names
    → Distinct names
    → Fresh names m
    → decode_row t names (row_wires t r) m ≡ some (m ++ received_row r)
unfolding decode_row received_row
decode_row_lem t [] [] m h d f = ap some (sym (append-nil m))
decode_row_lem t [] (p ∷ r) m h d f = absurd (cc h)
decode_row_lem t (s ∷ ss) [] m h d f = absurd (cc h)
decode_row_lem t (s ∷ ss) ((c, v) ∷ r) m h d f =
    let e : c ≡ some s = cc h in
    let rest =
      decode_row_lem t ss r (insert (some s) (received_value v) m) (cc h) d.1
        (Fresh-insert ss s (received_value v) m f.1 d.0) in
    rw (value_lem t v, rest, insert_fresh (some s) (received_value v) m f.0, e)
      (ap some (append_assoc m ((some s, received_value v) ∷ []) (received_row r)))

rows_lem :
    (t : Texts) (names : List String) (rows : List Row)
    → IsTable names rows
    → traverse
        (λ w. as_array w >>= (λ vs. decode_row t names vs []))
        (map (λ row. list (row_wires t row)) rows)
      ≡ some (map received_row rows)
unfolding traverse
rows_lem t names [] h = refl
rows_lem t names (r ∷ rows) h =
    rw
      (
        to_list-from_list (row_wires t r),
        decode_row_lem t names r [] h.1.0 h.0 (Fresh-none names),
        rows_lem t names rows (h.0, h.1.1),
      )
      refl

columns_lem :
    (r : Row) (names : List String)
    → map (λ p. p.0) r ≡ map some names
    → map (λ p. text_or_null p.0) r ≡ map text names
columns_lem [] [] h = refl
columns_lem [] (s ∷ ss) h = absurd (cc h)
columns_lem (p ∷ r) [] h = absurd (cc h)
columns_lem ((c, v) ∷ r) (s ∷ ss) h =
    let e : c ≡ some s = cc h in rw (e, columns_lem r ss (cc h)) refl

select_lem :
    (t : Texts) (names : List String) (r : Row) (rows : List Row)
    → IsTable names (r ∷ rows)
    → decode_response t (encode_rows t (r ∷ rows))
      ≡ some (some (select_result (map received_row (r ∷ rows))))
unfolding decode_response decode_rows encode_rows
select_lem t names r rows h =
    rw
      (
        columns_lem r names h.1.0,
        to_list-from_list (map text names),
        texts_lem names,
        to_list-from_list (map (λ row. list (row_wires t row)) rows),
        rows_lem t names (r ∷ rows) h,
      )
      refl

response_lem :
    (t : Texts) (r : Response)
    → IsSendableResponse r
    → (encode_response t r >>= decode_response t) ≡ some (some (received_response r))
unfolding encode_response decode_response received_response decode_rows encode_rows traverse
response_lem t (primitive_bool b) h = refl
response_lem t (primitive_int z) h = refl
response_lem t primitive_other h = absurd (cc h)
response_lem t (select_result []) h = refl
response_lem t (select_result (r ∷ rows)) h = select_lem t h.0 r rows h.1

-- An exception of SQLite arrives without its offset.
unfoldable pub received_sqlite_error : SqliteError → SqliteError
received_sqlite_error e = record {
  message = e.message;
  explanation = e.explanation;
  extended_code = e.extended_code;
  offset = none;
  operation = e.operation;
  statement = e.statement;
  parameters = map_option (λ vs. map received_value vs) e.parameters;
}

-- Since version 4 the exceptions of SQLite are told apart; other errors arrive as their text.
unfoldable pub received_failure : ℕ → Texts → Failure → Failure
unfolding received_sqlite_error
received_failure version t (sqlite_error e) =
    if leb 4 version
    then sqlite_error (received_sqlite_error e)
    else object (text (show_failure t (sqlite_error e)))
received_failure version t e = object (text (show_failure t e))

unfoldable pub received : ℕ → Texts → ProtocolMessage ℤ → ProtocolMessage Wire
unfolding received_failure
received version t (request_message id r) = request_message (int id) (map_option received_request r)
received version t (success_response id r) =
    success_response (int id) (map_option received_response r)
received version t (error_response id e stack) =
    error_response (int id) (received_failure version t e) stack
received version t (cancelled_response id) = cancelled_response (int id)

abbrev pub HasTextsInside : ProtocolMessage ℤ → Type 0
HasTextsInside (request_message id (some r)) = HasTexts r
HasTextsInside m = Unit

parameters_lem :
    (t : Texts) (ps : Option (List Value))
    → decode_parameters t (parameters_or_null t ps)
      ≡ some (map_option (λ vs. map received_value vs) ps)
unfolding decode_parameters
parameters_lem t none = refl
parameters_lem t (some vs) = rw (to_list-from_list (map (encode_value t) vs), values_lem t vs) refl

sqlite_error_lem :
    (t : Texts) (id : ℤ) (e : SqliteError) (stack : Option String)
    → (as_array (encode_sqlite_error t id e stack) >>= decode_sqlite_error t)
      ≡ some (error_response (int id) (sqlite_error (received_sqlite_error e)) stack)
unfolding encode_sqlite_error decode_sqlite_error received_sqlite_error
sqlite_error_lem t id e stack =
    rw
      (
        as_text_or_null-text_or_null e.explanation,
        as_text_or_null-text_or_null e.statement,
        parameters_lem t e.parameters,
        as_text_or_null-text_or_null e.operation,
        as_text_or_null-text_or_null stack,
      )
      refl

-- The message that `encode` makes, as the array that `decode` takes.
abbrev pub sent : ℕ → Texts → ProtocolMessage ℤ → Option (List Wire)
sent version t m = encode t version m >>= as_array

error_lem :
    (version : ℕ) (t : Texts) (id : ℤ) (e : Failure) (stack : Option String)
    → (as_array (encode_error t version id e stack) >>= decode t)
      ≡ some (error_response (int id) (received_failure version t e) stack)
unfolding encode_error decode decode_tag decode_error received_failure
error_lem version t id (exception s) stack = rw (as_text_or_null-text_or_null stack) refl
error_lem version t id (object w) stack = rw (as_text_or_null-text_or_null stack) refl
error_lem version t id (sqlite_error e) stack = elim (Bool-cases (leb 4 version)) [
  | inl b ↦ rw b (sqlite_error_lem t id e stack)
  | inr b ↦ rw (b, as_text_or_null-text_or_null stack) refl
]

in_request :
    (t : Texts) (id : ℤ) (r : Request) (o : Option Wire)
    → (o >>= decode_request t) ≡ some (some r)
    → (((o >>= (λ p. some (tagged t 0 (id_object (int id) p)))) >>= as_array) >>= decode t)
      ≡ some (request_message (int id) (some r))
unfolding decode decode_tag decode_request_object
in_request t id r none h = absurd (cc h)
in_request t id r (some p) h = rw h refl

in_response :
    (t : Texts) (id : ℤ) (r : Response) (o : Option Wire)
    → (o >>= decode_response t) ≡ some (some r)
    → (((o >>= (λ p. some (tagged t 1 (id_object (int id) p)))) >>= as_array) >>= decode t)
      ≡ some (success_response (int id) (some r))
unfolding decode decode_tag decode_response_object
in_response t id r none h = absurd (cc h)
in_response t id r (some p) h = rw h refl

-- What the second encoding of the protocol sends is received, for every message as for the first
-- encoding whose batches have texts as their statements, whatever the version of the other side.
-- Lists of integers arrive as bytes; since version 4 an exception of SQLite arrives with all its
-- fields but the offset, and other errors arrive as their text.
pub decode-sent :
    (version : ℕ) (t : Texts) (m : ProtocolMessage ℤ)
    → IsSendable m
    → HasTextsInside m
    → (sent version t m >>= decode t) ≡ some (received version t m)
unfolding encode decode decode_tag decode_request_object decode_response_object decode_request
    decode_response received
decode-sent version t (request_message id none) h k = refl
decode-sent version t (request_message id (some r)) h k =
    in_request t id (received_request r) (encode_request t r) (request_lem t r h k)
decode-sent version t (success_response id none) h k = refl
decode-sent version t (success_response id (some r)) h k =
    in_response t id (received_response r) (encode_response t r) (response_lem t r h)
decode-sent version t (error_response id e stack) h k = error_lem version t id e stack
decode-sent version t (cancelled_response id) h k = refl
