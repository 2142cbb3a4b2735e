-- ===== src/Protocol/First/RoundTrip/Messages.antt =====
-- Responses and messages of `A.h4` in mobile/web/drift_worker.dart.js that are encoded by `dk` and
-- decoded by `ei`.
use Prim.Native.String.{String}
use bojairu.Prelude.{
  ℕ, suc, ◌+◌, ◌≡◌, refl, sym, ◌∙◌, true, Option, none, some, List, [], ◌∷◌, ◌++◌, map, length,
  drop, length-map, length-append, arith, take-append, leb,
}
use bojairu.Prelude.Int.{ℤ, pos, ◌>>=◌, map_option}
use bojairu.Protocol.{
  Wire, int, text, Request, Row, Response, primitive_bool, primitive_int, primitive_other,
  select_result, ProtocolMessage, request_message, success_response, error_response,
  cancelled_response, object, list,
}
use bojairu.Protocol.Casts.{
  at, Texts, as_text_or_null-text_or_null, to_list-from_list, show_failure,
}
use bojairu.Protocol.First.{of_request, of_response}
use bojairu.Protocol.First.Encoding.{columns, all_values, encode_request, encode_response, encode}
use bojairu.Protocol.First.Decoding.{
  decode_rows, decode_select, decode_select_payload, decode_primitive, decode_tagged,
  decode_payload, decode_request, decode_response, decode_error, decode_message, decode,
}
use bojairu.Protocol.First.RoundTrip.{map-some, received_row, IsTable, decode_rows-all_values}
use bojairu.Protocol.First.RoundTrip.Requests.{
  received_request, received_response, IsSendableRequest, IsSendableResponse, request_lem,
}

at-append : (xs ys : List Wire) (w : Wire) → at (xs ++ (w ∷ ys)) (length xs) ≡ some w
at-append [] ys w = refl
at-append (x ∷ xs) ys w = at-append xs ys w

drop-append_suc : (xs ys : List Wire) (w : Wire) → drop (suc (length xs)) (xs ++ (w ∷ ys)) ≡ ys
drop-append_suc [] ys w = refl
drop-append_suc (x ∷ xs) ys w = drop-append_suc xs ys w

-- The fields of tag 11.
select_fields :
    (t : Texts) (cs vs : List Wire) (rows : List Row) (n : ℕ)
    → decode_rows t n cs vs ≡ some rows
    → decode_select t (int (pos 11) ∷ (int (pos (length cs)) ∷ (cs ++ (int (pos n) ∷ vs))))
      ≡ some (select_result rows)
unfolding decode_select
select_fields t cs vs rows n h =
    let w : Wire = int (pos n) in
    let fits : leb (2 + length cs) (suc (suc (length (cs ++ (w ∷ vs))))) ≡ true =
      ground (arith, length-append cs (w ∷ vs)) in
    let two : 2 + length cs ≡ suc (suc (length cs)) = omega arith in
    let three : 3 + length cs ≡ suc (suc (suc (length cs))) = omega arith in
    rw
      (
        fits,
        take-append cs (w ∷ vs) (length cs) refl,
        two,
        three,
        at-append cs vs w,
        drop-append_suc cs vs w,
        h,
      )
      refl

select_lem :
    (t : Texts) (names : List String) (r : Row) (rows : List Row)
    → IsTable names (r ∷ rows)
    → (encode_response t (select_result (r ∷ rows)) >>= decode_payload t)
      ≡ some (of_response (select_result (map received_row (r ∷ rows))))
unfolding encode_response decode_payload decode_tagged decode_select_payload columns
select_lem t names r rows h =
    let cs = map text names in
    let vs = all_values t (r ∷ rows) in
    let n : length (map some names) ≡ length cs =
      length-map names some ∙ sym (length-map names text) in
    let rest = decode_rows-all_values t names (r ∷ rows) h in
    rw
      (
        h.1.0,
        map-some names,
        n,
        to_list-from_list (cs ++ (int (pos (suc (length rows))) ∷ vs)),
        select_fields t cs vs (map received_row (r ∷ rows)) (suc (length rows)) rest,
      )
      refl

pub response_lem :
    (t : Texts) (r : Response)
    → IsSendableResponse r
    → (encode_response t r >>= decode_payload t) ≡ some (of_response (received_response r))
unfolding encode_response decode_payload decode_tagged received_response decode_primitive
    decode_select_payload decode_select
response_lem t (primitive_bool b) h = refl
response_lem t (primitive_int z) h = refl
response_lem t primitive_other h = absurd (cc h)
response_lem t (select_result []) h = refl
response_lem t (select_result (r ∷ rows)) h = select_lem t h.0 r rows h.1

-- An error arrives as its text.
unfoldable pub received : Texts → ProtocolMessage ℤ → ProtocolMessage ℤ
unfolding received_request received_response
received t (request_message id r) = request_message id (map_option received_request r)
received t (success_response id r) = success_response id (map_option received_response r)
received t (error_response id e stack) = error_response id (object (text (show_failure t e))) stack
received t (cancelled_response id) = cancelled_response id

abbrev pub IsSendable : ProtocolMessage ℤ → Type 0
IsSendable (request_message id (some r)) = IsSendableRequest r
IsSendable (success_response id (some r)) = IsSendableResponse r
IsSendable m = Unit

in_request :
    (t : Texts) (id : ℤ) (r : Request) (o : Option Wire)
    → (o >>= decode_payload t) ≡ some (of_request r)
    → ((o >>= (λ p. some (list (int (pos 0) ∷ (int id ∷ (p ∷ [])))))) >>= decode t)
      ≡ some (request_message id (some r))
unfolding decode decode_message decode_request
in_request t id r none h = absurd (cc h)
in_request t id r (some p) h = rw h refl

in_response :
    (t : Texts) (id : ℤ) (r : Response) (o : Option Wire)
    → (o >>= decode_payload t) ≡ some (of_response r)
    → ((o >>= (λ p. some (list (int (pos 1) ∷ (int id ∷ (p ∷ [])))))) >>= decode t)
      ≡ some (success_response id (some r))
unfolding decode decode_message decode_response
in_response t id r none h = absurd (cc h)
in_response t id r (some p) h = rw h refl

-- What the first encoding of the protocol sends is received, for every message that it has a form
-- for: a request whose method or control exists, an answer that is a Boolean, an integer or rows
-- with the same distinct columns, an error, or a cancellation. The message arrives as it was, but
-- for lists of integers, which arrive as bytes, and for errors, which arrive as their text.
pub decode-encode :
    (t : Texts) (m : ProtocolMessage ℤ)
    → IsSendable m
    → (encode t m >>= decode t) ≡ some (received t m)
unfolding encode decode decode_payload decode_message decode_request decode_response decode_error
    received
decode-encode t (request_message id none) h = refl
decode-encode t (request_message id (some r)) h =
    in_request t id (received_request r) (encode_request t r) (request_lem t r h)
decode-encode t (success_response id none) h = refl
decode-encode t (success_response id (some r)) h =
    in_response t id (received_response r) (encode_response t r) (response_lem t r h)
decode-encode t (error_response id e stack) h = rw (as_text_or_null-text_or_null stack) refl
decode-encode t (cancelled_response id) h = refl

under_response :
    (t : Texts) (id : ℤ) (r : Request) (o : Option Wire)
    → (o >>= decode_payload t) ≡ some (of_request r)
    → (o >>= (λ p. decode t (list (int (pos 1) ∷ (int id ∷ (p ∷ [])))))) ≡ none
unfolding decode decode_message decode_response
under_response t id r none h = refl
under_response t id r (some p) h = rw h refl

under_request :
    (t : Texts) (id : ℤ) (r : Response) (o : Option Wire)
    → (o >>= decode_payload t) ≡ some (of_response r)
    → (o >>= (λ p. decode t (list (int (pos 0) ∷ (int id ∷ (p ∷ [])))))) ≡ none
unfolding decode decode_message decode_request
under_request t id r none h = refl
under_request t id r (some p) h = rw h refl

-- In the first encoding, a request that is sent as the content of an answer, and an answer that is
-- sent as the content of a request, are refused.
pub misdirected :
    (t : Texts) (id : ℤ) (r : Request) (s : Response)
    → IsSendableRequest r
    → IsSendableResponse s
    → ((encode_request t r >>= (λ p. decode t (list (int (pos 1) ∷ (int id ∷ (p ∷ [])))))) ≡ none)
      × ((encode_response t s >>= (λ p. decode t (list (int (pos 0) ∷ (int id ∷ (p ∷ []))))))
          ≡ none)
misdirected t id r s h k = (
  under_response t id (received_request r) (encode_request t r) (request_lem t r h),
  under_request t id (received_response s) (encode_response t s) (response_lem t s k),
)
