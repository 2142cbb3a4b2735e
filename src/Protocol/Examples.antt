-- ===== src/Protocol/Examples.antt =====
-- Runs of the encodings of the Drift protocol, with big integers written in unary.
use Prim.Native.String.{String, ◌++◌, count}
use text.Mathlib.TextLemmas.{length-append}
use bojairu.Prelude.{
  Bool, ℕ, zero, suc, ◌+◌, ◌*◌, ◌/◌, ◌%◌, ◌≡◌, refl, false, Option, none, some, List, [], ◌∷◌, ◌==◌,
  arith, if◌then◌else◌,
}
use bojairu.Prelude.Int.{ℤ, pos, negsuc, ◌>>=◌}
use bojairu.Protocol.{
  Wire, int, list, Row, big_value, int_list, int_value, null_value, bytes_value, double_value,
  select, execute_query, Request, ProtocolMessage, success_response, error_response, select_result,
  sqlite_error,
}
use bojairu.Protocol.Casts.{Texts}
use bojairu.Protocol.First.RoundTrip.{IsTable, received_row, received_value}
use bojairu.Protocol.First.Encoding.{encode, encode_request, encode_response}
use bojairu.Protocol.First.Decoding.{decode}
use bojairu.Protocol.First.RoundTrip.Messages.{received, decode-encode, misdirected}
use bojairu.Protocol.First.RoundTrip.Requests.{received_response}
use bojairu.Protocol.Second.Messages.{decode as decode_second}
use bojairu.Protocol.Second.RoundTrip.Messages.{sent, received as received_second, decode-sent}

abbrev unary : ℕ → String
unary zero = ""
unary (suc n) = "I" ++ unary n

count-unary : (n : ℕ) → count (unary n) ≡ n
count-unary zero = refl
count-unary (suc n) = omega (arith, length-append "I" (unary n), count-unary n)

abbrev show : ℤ → String
show (pos n) = unary (2 * n)
show (negsuc n) = unary (2 * n + 1)

abbrev signed : ℕ → ℤ
signed n = if n % 2 == 0 then pos (n / 2) else negsuc (n / 2)

abbrev parse : String → Option ℤ
parse s = some (signed (count s))

signed_even : (n : ℕ) → signed (2 * n) ≡ pos n
signed_even n =
    let r : (2 * n) % 2 ≡ 0 = omega arith in let q : (2 * n) / 2 ≡ n = omega arith in rw (r, q) refl

signed_odd : (n : ℕ) → signed (2 * n + 1) ≡ negsuc n
signed_odd n =
    let r : (2 * n + 1) % 2 ≡ 1 = omega arith in
    let q : (2 * n + 1) / 2 ≡ n = omega arith in rw (r, q) refl

parse-show : (z : ℤ) → parse (show z) ≡ some z
parse-show (pos n) = rw (count-unary (2 * n), signed_even n) refl
parse-show (negsuc n) = rw (count-unary (2 * n + 1), signed_odd n) refl

abbrev loosely : Wire → ℕ → Bool
loosely (int (pos m)) n = m == n
loosely w n = false

abbrev texts : Texts
texts = record {
  show = show;
  parse = parse;
  to_string = λ w. "[object Object]";
  show_sqlite = λ e. e.message;
  loosely = loosely;
  parse-show = parse-show;
  loosely_int = λ m n. refl;
}

-- Two rows with a big integer, a list of integers, and columns that are not in one order of names.
abbrev people : List Row
people =
    ((some "id", big_value (negsuc 2))
      ∷ ((some "data", int_list (pos 255 ∷ (pos 256 ∷ (negsuc 0 ∷ [])))) ∷ []))
    ∷ (((some "id", int_value (pos 7)) ∷ ((some "data", null_value) ∷ [])) ∷ [])

people-IsTable : IsTable ("id" ∷ ("data" ∷ [])) people
people-IsTable = ((((λ e. cc e), tt), (tt, tt)), (refl, (refl, tt)))

-- What is received of them.
abbrev received_people : List Row
received_people =
    ((some "id", big_value (negsuc 2)) ∷ ((some "data", bytes_value (255 ∷ (0 ∷ (255 ∷ [])))) ∷ []))
    ∷ (((some "id", int_value (pos 7)) ∷ ((some "data", null_value) ∷ [])) ∷ [])

abbrev answer : ProtocolMessage ℤ
answer = success_response (pos 3) (some (select_result people))

decode-encode_example :
    (encode texts answer >>= decode texts)
    ≡ some (success_response (pos 3) (some (select_result received_people)))
unfolding received received_response received_row received_value
decode-encode_example = decode-encode texts answer ("id" ∷ ("data" ∷ []), people-IsTable)

abbrev query : Request
query = execute_query (some select) "select ?" (big_value (pos 4) ∷ []) none

misdirected_example :
    ((encode_request texts query
        >>= (λ p. decode texts (list (int (pos 1) ∷ (int (pos 9) ∷ (p ∷ []))))))
      ≡ none)
    × ((encode_response texts (select_result people)
          >>= (λ p. decode texts (list (int (pos 0) ∷ (int (pos 9) ∷ (p ∷ []))))))
        ≡ none)
misdirected_example =
    misdirected texts (pos 9) query (select_result people) (λ e. cc e)
      ("id" ∷ ("data" ∷ []), people-IsTable)

-- An exception of SQLite between two sides of version 4.
abbrev failure : ProtocolMessage ℤ
failure =
    error_response (pos 5)
      (sqlite_error (record {
        message = "constraint failed";
        explanation = none;
        extended_code = pos 1555;
        offset = some (pos 12);
        operation = some "executing";
        statement = none;
        parameters = some (double_value 4 ∷ (big_value (negsuc 0) ∷ []));
      }))
      (some "main.dart 12")

decode-sent_example :
    (sent 4 texts failure >>= decode_second texts) ≡ some (received_second 4 texts failure)
decode-sent_example = decode-sent 4 texts failure tt tt
