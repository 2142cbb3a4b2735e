-- ===== src/Utf8/Encoding.antt =====
-- The encoder of mobile/web/drift_worker.dart.js, `A.nk`, beside an encoding with no buffer.
use mathlib.Core.List.{append_assoc, append-nil}
use bojairu.Prelude.{
  ℕ, ◌+◌, ◌*◌, ◌≤◌, ◌≡◌, refl, sym, ap, ◌∙◌, true, false, ◌&&◌, some, List, [], ◌∷◌, ◌++◌, ltb, leb,
  ◌==◌, if◌then◌else◌, length, length-append, arith, Bool-cases, inl, inr,
}
use bojairu.Utf8.{
  is_lead, is_trail, leads, replacement, two_bytes, three_bytes, pair_bytes, write_unit,
  encode_units, encode,
}

-- The bytes of one unit; a surrogate gets those of the replacement character.
unfoldable pub unit_bytes : ℕ → List ℕ
unit_bytes o =
    if leb o 127
    then o ∷ []
    else (if is_lead o
        then replacement
        else (if is_trail o
            then replacement
            else (if leb o 2047 then two_bytes o else three_bytes o)))

-- The encoding, unit by unit, with no buffer.
unfoldable pub utf8 : List ℕ → List ℕ
utf8 [] = []
utf8 (o ∷ []) = unit_bytes o
utf8 (o ∷ (b ∷ us)) =
    if leads o && is_trail b then pair_bytes o b ++ utf8 us else unit_bytes o ++ utf8 (b ∷ us)

write_unit_lem :
    (q o : ℕ) (out : List ℕ)
    → length out + 3 ≤ q
    → leads o ≡ false
    → write_unit q o out ≡ some (out ++ unit_bytes o)
unfolding write_unit unit_bytes leads
write_unit_lem q o out h n = ground arith

leads_lem : (o : ℕ) → leads o ≡ true → unit_bytes o ≡ replacement
unfolding unit_bytes leads
leads_lem o h = ground arith

length-unit_bytes : (o : ℕ) → length (unit_bytes o) ≤ 3
unfolding unit_bytes two_bytes three_bytes
length-unit_bytes o = ground arith

length-pair_bytes : (a b : ℕ) → length (pair_bytes a b) ≡ 4
unfolding pair_bytes
length-pair_bytes a b = refl

-- What `a5` makes of what is left and of the bytes.
abbrev closing : List ℕ × List ℕ → List ℕ
closing (left, out) = if length left == 0 then out else out ++ replacement

encode_units_lem :
    (q : ℕ) (us out : List ℕ)
    → length out + length us * 3 ≤ q
    → closing (encode_units q us out) ≡ out ++ utf8 us
unfolding encode_units utf8
encode_units_lem q [] out h = sym (append-nil out)
encode_units_lem q (o ∷ []) out h = elim (Bool-cases (leads o)) [
  | inl e ↦ rw (e, encode_units) (ap (λ b. out ++ b) (sym (leads_lem o e)))
  | inr e ↦ rw (e, encode_units) (rw (write_unit_lem q o out (omega arith) e) refl)
]
encode_units_lem q (o ∷ (b ∷ us)) out h = elim (Bool-cases (leads o)) [
  | inl e ↦
      let room : ltb q (length out + 4) ≡ false = ground arith in
      elim (Bool-cases (is_trail b)) [
        | inl t ↦
            rw (e, encode_units, utf8)
              (rw (room, t)
                (encode_units_lem q us (out ++ pair_bytes o b)
                    (omega (arith, length-append out (pair_bytes o b), length-pair_bytes o b))
                  ∙ append_assoc out (pair_bytes o b) (utf8 us)))
        | inr t ↦
            rw (e, encode_units, utf8)
              (rw (room, t, leads_lem o e)
                (encode_units_lem q (b ∷ us) (out ++ replacement)
                    (omega (arith, length-append out replacement))
                  ∙ append_assoc out replacement (utf8 (b ∷ us))))
      ]
  | inr e ↦
      rw (e, encode_units, utf8)
        (rw (write_unit_lem q o out (omega arith) e) (
          encode_units_lem q (b ∷ us) (out ++ unit_bytes o)
            (omega (arith, length-append out (unit_bytes o), length-unit_bytes o))
          ∙ append_assoc out (unit_bytes o) (utf8 (b ∷ us))))
]

length-utf8 : (a : List ℕ) → length (utf8 a) ≤ length a * 3
unfolding utf8
length-utf8 [] = omega arith
length-utf8 (o ∷ []) = omega (arith, length-unit_bytes o)
length-utf8 (o ∷ (b ∷ us)) = elim (Bool-cases (leads o && is_trail b)) [
  | inl e ↦
      rw (e, utf8)
        (omega
          (arith, length-append (pair_bytes o b) (utf8 us), length-pair_bytes o b, length-utf8 us))
  | inr e ↦
      rw (e, utf8)
        (omega (
          arith,
          length-append (unit_bytes o) (utf8 (b ∷ us)),
          length-unit_bytes o,
          length-utf8 (b ∷ us),
        ))
]

-- Three bytes for each code unit are always room enough for the encoder: it gives, for every
-- string, the bytes of its pairs of surrogates and of its other units one after the other, with the
-- replacement character for each surrogate that is alone, and these are at most three times as many
-- as the units.
pub encode_lem : (a : List ℕ) → (encode a ≡ utf8 a) × (length (encode a) ≤ length a * 3)
unfolding encode
encode_lem a =
    let same : encode a ≡ utf8 a = encode_units_lem (length a * 3) a [] (omega arith) in
    (same, rw same (length-utf8 a))
