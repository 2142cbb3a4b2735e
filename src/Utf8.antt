-- ===== src/Utf8.antt =====
-- The UTF-8 encoder of mobile/web/drift_worker.dart.js, `A.i0` and its buffer `A.nk`, on the code
-- units of a string. The buffer has room for a fixed number of bytes; its bytes so far are a list,
-- whose length is the field `b`.
pub mod Encoding
mod Examples
use Prim.Native.Nat.{bit_and, bit_or}
use bojairu.Prelude.{
  ℕ, zero, suc, ◌+◌, ◌-◌, ◌*◌, ◌/◌, Bool, true, false, not, ◌&&◌, Option, none, some, List, [], ◌∷◌,
  ◌++◌, ltb, leb, ◌==◌, if◌then◌else◌, length,
}

-- The tests of the two kinds of surrogates.
unfoldable pub is_lead : ℕ → Bool
is_lead o = bit_and o 64512 == 55296

unfoldable pub is_trail : ℕ → Bool
is_trail o = bit_and o 64512 == 56320

-- `e7`: the bytes of the replacement character.
abbrev pub replacement : List ℕ
replacement = 239 ∷ (191 ∷ (189 ∷ []))

-- The bytes that `iu` writes for a unit that is no surrogate, above 127, of two and of three bytes.
unfoldable pub two_bytes : ℕ → List ℕ
two_bytes o = bit_or (o / 64) 192 ∷ (bit_or (bit_and o 63) 128 ∷ [])

unfoldable pub three_bytes : ℕ → List ℕ
three_bytes o =
    bit_or (o / 4096) 224 ∷ (bit_or (bit_and (o / 64) 63) 128 ∷ (bit_or (bit_and o 63) 128 ∷ []))

-- `jx`: the four bytes of a pair of surrogates.
unfoldable pub pair_bytes : ℕ → ℕ → List ℕ
pair_bytes a b =
    let s = bit_or (65536 + bit_and a 1023 * 1024) (bit_and b 1023) in
    bit_or (s / 262144) 240
    ∷ (bit_or (bit_and (s / 4096) 63) 128
        ∷ (bit_or (bit_and (s / 64) 63) 128 ∷ (bit_or (bit_and s 63) 128 ∷ [])))

-- The part of the loop of `iu` for a unit that is no lead surrogate; `none`: there is no room.
unfoldable pub write_unit : ℕ → ℕ → List ℕ → Option (List ℕ)
write_unit q o out =
    if leb o 127
    then (if leb q (length out) then none else some (out ++ (o ∷ [])))
    else (if is_trail o
        then (if ltb q (length out + 3) then none else some (out ++ replacement))
        else (if leb o 2047
            then (if leb q (length out + 1) then none else some (out ++ two_bytes o))
            else (if leb q (length out + 2) then none else some (out ++ three_bytes o))))

-- A unit that the loop takes for a lead surrogate.
unfoldable pub leads : ℕ → Bool
leads o = not (leb o 127) && is_lead o

-- `iu`: the units are encoded while there is room. What is left of them, and the bytes. A lead
-- surrogate at the end is left.
unfoldable pub encode_units : ℕ → List ℕ → List ℕ → List ℕ × List ℕ
encode_units q [] out = ([], out)
encode_units q (o ∷ []) out =
    if leads o
    then (o ∷ [], out)
    else elim (write_unit q o out) [ none ↦ (o ∷ [], out) | some out' ↦ ([], out') ]
encode_units q (o ∷ (b ∷ us)) out =
    let paired = encode_units q us (out ++ pair_bytes o b) in
    let alone = encode_units q (b ∷ us) (out ++ replacement) in
    if leads o
    then (if ltb q (length out + 4)
        then (o ∷ (b ∷ us), out)
        else (if is_trail b then paired else alone))
    else elim (write_unit q o out) [
      | none ↦ (o ∷ (b ∷ us), out)
      | some out' ↦ encode_units q (b ∷ us) out'
    ]

-- `A.i0.a5`: room for three bytes for each unit, and a replacement character if a unit is left.
unfoldable pub encode : List ℕ → List ℕ
unfolding encode_units
encode a =
    let (left, out) = encode_units (length a * 3) a [] in
    if length left == 0 then out else out ++ replacement
