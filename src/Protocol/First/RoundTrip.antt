-- ===== src/Protocol/First/RoundTrip.antt =====
-- Messages of `A.h4` in mobile/web/drift_worker.dart.js that are encoded by `dk` and decoded by `ei`:
-- what is received of a value, and the rows of a select.
pub mod Messages
pub mod Requests
use Prim.Native.String.{String}
use mathlib.Core.List.{append-nil, append_assoc}
use bojairu.Prelude.{
  ℕ, zero, suc, ◌+◌, ◌≡◌, ◌≢◌, refl, sym, ap, ◌∙◌, Bool, true, false, Option, none, some, List, [],
  ◌∷◌, ◌++◌, map, length, take, drop, All, length-map, drop-append, if◌then◌else◌, arith,
}
use bojairu.Prelude.Dict.{
  insert, lookup, lookup-insert_other, insert_fresh, option_Eq, string_Eq, Eq,
}
use bojairu.Prelude.Int.{ℤ, pos, negsuc, ◌>>=◌, traverse, map_option, traverse-map}
use bojairu.Protocol.{
  Wire, null, bool, int, double, text, bytes, array, Value, null_value, bool_value, int_value,
  double_value, text_value, big_value, bytes_value, int_list, Row,
}
use bojairu.Protocol.Casts.{Texts, to_byte, text_or_null}
use bojairu.Protocol.First.{encode_value, decode_value, decode_list}
use bojairu.Protocol.First.Encoding.{columns, row_values, all_values}
use bojairu.Protocol.First.Decoding.{decode_row, decode_rows}

-- A list of integers arrives as a `Uint8Array`.
unfoldable pub received_value : Value → Value
received_value (int_list zs) = bytes_value (map to_byte zs)
received_value v = v

unfoldable pub received_row : Row → Row
received_row r = map (λ p. (p.0, received_value p.1)) r

abbrev pub Distinct : List String → Type 0
Distinct [] = Unit
Distinct (s ∷ ss) = All (λ x. s ≢ x) ss × Distinct ss

-- The rows have the same columns, which are distinct texts.
abbrev pub IsTable : List String → List Row → Type 0
IsTable names rows = Distinct names × All (λ r. map (λ p. p.0) r ≡ map some names) rows

pub decode_value-encode_value :
    (t : Texts) (v : Value) → decode_value t (encode_value t v) ≡ some (received_value v)
unfolding decode_value encode_value received_value decode_list
decode_value-encode_value t null_value = refl
decode_value-encode_value t (bool_value b) = refl
decode_value-encode_value t (int_value z) = refl
decode_value-encode_value t (double_value d) = refl
decode_value-encode_value t (text_value s) = refl
decode_value-encode_value t (big_value z) = rw (t.parse-show z) refl
decode_value-encode_value t (bytes_value bs) = refl
decode_value-encode_value t (int_list zs) = refl

-- The columns that are still to come have no value yet.
abbrev pub Fresh : List String → Row → Type 0
Fresh ss m = All (λ s. lookup (some s) m ≡ none) ss

pub Fresh-insert :
    (ss : List String) (s : String) (v : Value) (m : Row)
    → Fresh ss m
    → All (λ x. s ≢ x) ss
    → Fresh ss (insert (some s) v m)
Fresh-insert [] s v m f d = f
Fresh-insert (x ∷ ss) s v m f d =
    (lookup-insert_other (some s) (some x) v m (λ q. d.0 (cc q)) f.0, Fresh-insert ss s v m f.1 d.1)

decode_row-row_values :
    (t : Texts) (names : List String) (r m : Row) (rest : List Wire)
    → map (λ p. p.0) r ≡ map some names
    → Distinct names
    → Fresh names m
    → decode_row t (map text names) (row_values t r ++ rest) m ≡ some (m ++ received_row r)
unfolding decode_row row_values received_row
decode_row-row_values t [] [] m rest h d f = ap some (sym (append-nil m))
decode_row-row_values t [] (p ∷ r) m rest h d f = absurd (cc h)
decode_row-row_values t (s ∷ ss) [] m rest h d f = absurd (cc h)
decode_row-row_values t (s ∷ ss) ((c, v) ∷ r) m rest h d f =
    let e : c ≡ some s = cc h in
    let IH =
      decode_row-row_values t ss r (insert (some s) (received_value v) m) rest (cc h) d.1
        (Fresh-insert ss s (received_value v) m f.1 d.0) in
    rw (decode_value-encode_value t v, IH, insert_fresh (some s) (received_value v) m f.0, e)
      (ap some (append_assoc m ((some s, received_value v) ∷ []) (received_row r)))

-- Each row takes as many values as there are columns.
length-row_values :
    (t : Texts) (names : List String) (r : Row)
    → map (λ p. p.0) r ≡ map some names
    → length (map text names) ≡ length (row_values t r)
unfolding row_values
length-row_values t names r h =
    length-map names text
    ∙ sym (length-map names some)
    ∙ ap length (sym h)
    ∙ length-map r (λ p. p.0)
    ∙ sym (length-map r (λ p. encode_value t p.1))

pub Fresh-none : (names : List String) → Fresh names []
unfolding lookup
Fresh-none [] = tt
Fresh-none (s ∷ ss) = (refl, Fresh-none ss)

pub decode_rows-all_values :
    (t : Texts) (names : List String) (rows : List Row)
    → IsTable names rows
    → decode_rows t (length rows) (map text names) (all_values t rows)
      ≡ some (map received_row rows)
unfolding decode_rows all_values
decode_rows-all_values t names [] h = refl
decode_rows-all_values t names (r ∷ rows) h =
    rw
      (
        decode_row-row_values t names r [] (all_values t rows) h.1.0 h.0 (Fresh-none names),
        drop-append (row_values t r) (all_values t rows) (length (map text names))
            (length-row_values t names r h.1.0),
        decode_rows-all_values t names rows (h.0, h.1.1),
      )
      refl

pub map-some : (names : List String) → map text_or_null (map some names) ≡ map text names
map-some [] = refl
map-some (s ∷ ss) = ap (λ l. text s ∷ l) (map-some ss)
