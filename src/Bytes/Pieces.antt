-- ===== src/Bytes/Pieces.antt =====
-- Byte arrays that are written piece by piece.
use mathlib.Core.List.{append-nil}
use bojairu.Prelude.{
  ℕ, zero, suc, ◌+◌, ◌-◌, ◌≤◌, ◌≡◌, refl, sym, ◌∙◌, ap, List, [], ◌∷◌, ◌++◌, arith, length, take,
  drop, length-append, length-take, length-drop, ext_of_get_or, take-append,
}
use bojairu.Bytes.{overwrite}
use bojairu.Bytes.Flat.{
  byte, length-overwrite, byte-append, byte-overwrite, write_at, length-write_at, byte-write_at,
  byte-take, byte-drop,
}

pub take-drop {ℓ} : {A : Type ℓ} (n : ℕ) (xs : List A) → take n xs ++ drop n xs ≡ xs
take-drop zero xs = refl
take-drop (suc n) [] = refl
take-drop (suc n) (x ∷ xs) = ap (λ l. x ∷ l) (take-drop n xs)

pub write_at-write_at :
    (f : List ℕ) (a : ℕ) (xs : List ℕ) (y : ℕ) (ys : List ℕ)
    → write_at (write_at f a xs) (a + length xs) (y ∷ ys) ≡ write_at f a (xs ++ (y ∷ ys))
write_at-write_at f a xs y ys =
    ext_of_get_or _ _ 0
      (omega (
        arith,
        length-write_at (write_at f a xs) (a + length xs) (y ∷ ys),
        length-write_at f a xs,
        length-write_at f a (xs ++ (y ∷ ys)),
        length-append xs (y ∷ ys),
      ))
      (λ i h. ground (
        arith,
        byte-write_at (write_at f a xs) (a + length xs) (y ∷ ys) i,
        byte-write_at f a xs i,
        byte-write_at f a (xs ++ (y ∷ ys)) i,
        length-append xs (y ∷ ys),
        byte-append xs (y ∷ ys) (i - a),
        shift i,
      ))
  where
    shift : (i : ℕ) → byte (y ∷ ys) (i - (a + length xs)) ≡ byte (y ∷ ys) (i - a - length xs)
    shift i = ap (byte (y ∷ ys)) (omega arith)

-- What a file holds after bytes were written to it one piece after the other: without any, it stays
-- as it was.
abbrev pub put : List ℕ → ℕ → List ℕ → List ℕ
put f a [] = f
put f a (b ∷ bs) = write_at f a (b ∷ bs)

pub put-write_at :
    (f : List ℕ) (a : ℕ) (xs ys : List ℕ)
    → put (write_at f a xs) (a + length xs) ys ≡ write_at f a (xs ++ ys)
put-write_at f a xs [] = rw (append-nil xs) refl
put-write_at f a xs (y ∷ ys) = write_at-write_at f a xs y ys

pub overwrite-overwrite :
    (a : List ℕ) (n : ℕ) (xs ys : List ℕ)
    → n + length xs + length ys ≤ length a
    → overwrite (overwrite a n xs) (n + length xs) ys ≡ overwrite a n (xs ++ ys)
overwrite-overwrite a n xs ys h =
    let l : length (overwrite a n xs) ≡ length a = length-overwrite a n xs (omega arith) in
    let k : length (xs ++ ys) ≡ length xs + length ys = length-append xs ys in
    ext_of_get_or _ _ 0
      (omega (
        arith,
        length-overwrite (overwrite a n xs) (n + length xs) ys (omega arith),
        length-overwrite a n (xs ++ ys) (omega arith),
      ))
      (λ i e. ground (
        arith,
        byte-overwrite (overwrite a n xs) (n + length xs) ys i (omega arith),
        byte-overwrite a n xs i (omega arith),
        byte-overwrite a n (xs ++ ys) i (omega arith),
        byte-append xs ys (i - n),
        shift i,
      ))
  where
    shift : (i : ℕ) → byte ys (i - (n + length xs)) ≡ byte ys (i - n - length xs)
    shift i = ap (byte ys) (omega arith)

pub overwrite_nothing : (a : List ℕ) (n : ℕ) → overwrite a n [] ≡ a
unfolding overwrite
overwrite_nothing a n = ap (λ k. take n a ++ drop k a) (omega arith) ∙ take-drop n a

pub take-overwrite : (a bs : List ℕ) → take (length bs) (overwrite a 0 bs) ≡ bs
unfolding overwrite
take-overwrite a bs = take-append bs (drop (0 + length bs) a) (length bs) refl

drop-nil {ℓ} : {A : Type ℓ} (n : ℕ) → drop {A = A} n [] ≡ []
drop-nil zero = refl
drop-nil (suc n) = refl

take-nil {ℓ} : {A : Type ℓ} (n : ℕ) → take {A = A} n [] ≡ []
take-nil zero = refl
take-nil (suc n) = refl

pub drop-drop {ℓ} : {A : Type ℓ} (m n : ℕ) (xs : List A) → drop m (drop n xs) ≡ drop (n + m) xs
drop-drop m zero xs = ap (λ k. drop k xs) (omega arith)
drop-drop m (suc n) [] = drop-nil m ∙ sym (drop-nil (suc n + m))
drop-drop m (suc n) (x ∷ xs) =
    let e : suc n + m ≡ suc (n + m) = omega arith in rw e (drop-drop m n xs)

-- A list in two pieces.
pub take_pieces {ℓ} :
    {A : Type ℓ} (m n : ℕ) (xs : List A) → m ≤ n → take m xs ++ take (n - m) (drop m xs) ≡ take n xs
take_pieces zero n xs h = ap (λ k. take k xs) (omega arith)
take_pieces (suc m) zero xs h = absurd (omega arith)
take_pieces (suc m) (suc n) [] h = take-nil (suc n - suc m)
take_pieces (suc m) (suc n) (x ∷ xs) h =
    let e : suc n - suc m ≡ n - m = omega arith in
    ap (λ l. x ∷ l) (rw e (take_pieces m n xs (omega arith)))

pub take_all {ℓ} : {A : Type ℓ} (n : ℕ) (xs : List A) → length xs ≤ n → take n xs ≡ xs
take_all zero [] h = refl
take_all zero (x ∷ xs) h = absurd (omega arith)
take_all (suc n) [] h = refl
take_all (suc n) (x ∷ xs) h = ap (λ l. x ∷ l) (take_all n xs (omega arith))

pub take_written :
    (f : List ℕ) (a : ℕ) (bs : List ℕ) → take (length bs) (drop a (write_at f a bs)) ≡ bs
take_written f a bs =
    ext_of_get_or _ _ 0
      (omega (
        arith,
        length-take (length bs) (drop a (write_at f a bs)),
        length-drop a (write_at f a bs),
        length-write_at f a bs,
      ))
      (λ i h. ground (
        arith,
        length-take (length bs) (drop a (write_at f a bs)),
        byte-take (length bs) (drop a (write_at f a bs)) i,
        byte-drop a (write_at f a bs) i,
        byte-write_at f a bs (a + i),
        back i,
      ))
  where
    back : (i : ℕ) → byte bs (a + i - a) ≡ byte bs i
    back i = ap (byte bs) (omega arith)

drop_all {ℓ} : {A : Type ℓ} (n : ℕ) (xs : List A) → length xs ≤ n → drop n xs ≡ []
drop_all zero [] h = refl
drop_all zero (x ∷ xs) h = absurd (omega arith)
drop_all (suc n) [] h = refl
drop_all (suc n) (x ∷ xs) h = drop_all n xs (omega arith)

pub overwrite_whole : (array bs : List ℕ) → length array ≡ length bs → overwrite array 0 bs ≡ bs
unfolding overwrite
overwrite_whole array bs h =
    ap (λ r. bs ++ r) (drop_all (0 + length bs) array (omega arith)) ∙ append-nil bs
