-- ===== src/Utf8/Examples.antt =====
-- Runs of the UTF-8 encoder of mobile/web/drift_worker.dart.js.
use bojairu.Prelude.{ℕ, ◌≡◌, ◌≤◌, ◌*◌, refl, List, [], ◌∷◌, length}
use bojairu.Utf8.{encode, write_unit, leads, is_lead, is_trail, two_bytes, pair_bytes}
use bojairu.Utf8.Encoding.{utf8, encode_lem}

-- "é", a pair of surrogates for one emoji, and a lead surrogate alone.
abbrev some_units : List ℕ
some_units = 233 ∷ (55357 ∷ (56832 ∷ (55357 ∷ [])))

some_bytes :
    encode some_units ≡ 195 ∷ (169 ∷ (240 ∷ (159 ∷ (152 ∷ (128 ∷ (239 ∷ (191 ∷ (189 ∷ []))))))))
unfolding encode write_unit leads is_lead is_trail two_bytes pair_bytes
some_bytes = refl

encode_lem_example :
    (encode some_units ≡ utf8 some_units) × (length (encode some_units) ≤ length some_units * 3)
encode_lem_example = encode_lem some_units
