-- ===== src/TwoFiles/Flags.antt =====
-- The bytes of the file "meta" in the OPFS file system without a worker
-- (mobile/web/drift_worker.dart.js, `A.dm`): which of the two files exist.
use bojairu.Prelude.{
  ℕ, ◌+◌, ◌≡◌, ◌<◌, ◌≤◌, refl, sym, ap, ◌∙◌, Bool, true, false, Option, none, some, List, [], ◌∷◌,
  arith, ltb, leb, ◌&&◌, ◌-◌, ◌==◌, if◌then◌else◌, length, take, drop, ext_of_get_or, length-take,
  length-drop,
}
use bojairu.Bytes.{overwrite}
use bojairu.Bytes.Flat.{
  byte, write_at, length-write_at, byte-write_at, length-overwrite, byte-overwrite, byte-take,
  byte-drop,
}
use bojairu.TwoFiles.{
  Handles, HandleLaws, FileKind, database, journal, file_index, TwoFiles, held, set_flag,
  read_flags,
}

abbrev pub same_kind : FileKind → FileKind → Bool
same_kind database database = true
same_kind journal journal = true
same_kind database journal = false
same_kind journal database = false

one_flag :
    (k j : FileKind) (new old : ℕ)
    → (if leb (file_index k) (file_index j) && ltb (file_index j) (file_index k + 1)
        then byte (new ∷ []) (file_index j - file_index k)
        else old)
      ≡ (if same_kind j k then new else old)
one_flag database database new old = refl
one_flag database journal new old = refl
one_flag journal database new old = refl
one_flag journal journal new old = refl

module _ (h : Handles) (l : HandleLaws h) where
  -- A file exists if its byte in "meta" is not 0.
  unfoldable pub found : TwoFiles h → FileKind → Option (List ℕ)
  found s k =
      if byte (l.contents s.meta) (file_index k) == 0 then none else some (l.contents (held h s k))

  -- There is a byte for each file.
  pub record IsReady (s : TwoFiles h) : Type 0 where
    pub flags_size : length s.flags ≡ 2
    pub meta_size : length (l.contents s.meta) ≡ 2

  -- The bytes are those of "meta".
  pub record InSync (s : TwoFiles h) : Type 0 where
    pub is_ready : IsReady s
    pub synced : s.flags ≡ l.contents s.meta

  -- The disk takes all the bytes of each write.
  abbrev pub TakesAll : Type 0
  TakesAll = (f : h.Held) (at : ℕ) (bs : List ℕ) → (h.write_bytes f at bs).1 ≡ length bs

  pub read_flags-InSync : (s : TwoFiles h) → IsReady s → InSync (read_flags h s)
  unfolding read_flags
  read_flags-InSync s v =
      let c = l.contents s.meta in
      let got : h.read_bytes s.meta 0 (length s.flags) ≡ take (length s.flags) (drop 0 c) =
        l.read_bytes_lem s.meta 0 (length s.flags) in
      let d = take (length s.flags) (drop 0 c) in
      let size : length d ≡ 2 = omega (
        arith,
        length-take (length s.flags) (drop 0 c),
        length-drop 0 c,
        v.flags_size,
        v.meta_size,
      ) in
      let fits : 0 + length d ≤ length s.flags = omega (arith, size, v.flags_size) in
      let new : overwrite s.flags 0 d ≡ c =
        ext_of_get_or _ _ 0 (length-overwrite s.flags 0 d fits ∙ v.flags_size ∙ sym v.meta_size)
          (λ i w.
            byte-overwrite s.flags 0 d i fits
            ∙ ground (
              arith,
              w,
              length-overwrite s.flags 0 d fits,
              v.flags_size,
              size,
              byte-take (length s.flags) (drop 0 c) i,
              byte-drop 0 c i,
            )) in
      record {
        is_ready = record { flags_size = rw (got, new) v.meta_size; meta_size = v.meta_size };
        synced = rw got new;
      }

  -- What `dU` leaves in "meta".
  pub set_flag_lem :
      (s : TwoFiles h) (k : FileKind) (b : Bool)
      → TakesAll
      → IsReady s
      → InSync (set_flag h k b s)
        × ((j : FileKind)
            → byte (l.contents (set_flag h k b s).meta) (file_index j)
              ≡ (if same_kind j k then (if b then 1 else 0) else byte s.flags (file_index j)))
  unfolding set_flag
  set_flag_lem s k b takes v =
      let x : List ℕ = (if b then 1 else 0) ∷ [] in
      let e = overwrite s.flags (file_index k) x in
      let one : length x ≡ 1 = refl in
      let low : file_index k < 2 = index_small k in
      let fits : file_index k + length x ≤ length s.flags = omega (arith, v.flags_size, low, one) in
      let size : length e ≡ 2 = length-overwrite s.flags (file_index k) x fits ∙ v.flags_size in
      let put = l.write_bytes_lem s.meta 0 e (takes s.meta 0 e) in
      let all : write_at (l.contents s.meta) 0 e ≡ e =
        ext_of_get_or _ _ 0
          (omega (arith, length-write_at (l.contents s.meta) 0 e, v.meta_size, size))
          (λ i w.
            byte-write_at (l.contents s.meta) 0 e i
            ∙ ground (arith, w, size, length-write_at (l.contents s.meta) 0 e, v.meta_size)) in
      (
        record {
          is_ready = record { flags_size = size; meta_size = rw (put, all) size };
          synced = rw (put, all) refl;
        },
        λ j.
            rw (put, all)
              (byte-overwrite s.flags (file_index k) x (file_index j) fits
                ∙ one_flag k j (if b then 1 else 0) (byte s.flags (file_index j))),
      )
    where
      index_small : (j : FileKind) → file_index j < 2
      index_small database = omega arith
      index_small journal = omega arith

  pub held-set_flag :
      (s : TwoFiles h) (k j : FileKind) (b : Bool) → held h (set_flag h k b s) j ≡ held h s j
  unfolding set_flag
  held-set_flag s k database b = refl
  held-set_flag s k journal b = refl

  pub held-read_flags : (s : TwoFiles h) (j : FileKind) → held h (read_flags h s) j ≡ held h s j
  unfolding read_flags
  held-read_flags s database = refl
  held-read_flags s journal = refl

  pub found-read_flags : (s : TwoFiles h) (j : FileKind) → found (read_flags h s) j ≡ found s j
  unfolding found read_flags
  found-read_flags s database = refl
  found-read_flags s journal = refl

  -- The files after `dU`.
  pub found-set_flag :
      (s : TwoFiles h) (k j : FileKind) (b : Bool)
      → TakesAll
      → InSync s
      → found (set_flag h k b s) j ≡ (
          if same_kind j k then (if b then some (l.contents (held h s k)) else none) else found s j)
  unfolding found
  found-set_flag s k j b takes v =
      let x = (set_flag_lem s k b takes v.is_ready).1 j in
      let old : byte s.flags (file_index j) ≡ byte (l.contents s.meta) (file_index j) =
        ap (λ (f : List ℕ). byte f (file_index j)) v.synced in
      rw (held-set_flag s k j b, x) (shown k j b old)
    where
      shown :
          (k j : FileKind) (b : Bool)
          → byte s.flags (file_index j) ≡ byte (l.contents s.meta) (file_index j)
          → (if (if same_kind j k then (if b then 1 else 0) else byte s.flags (file_index j)) == 0
              then none
              else some (l.contents (held h s j)))
            ≡ (if same_kind j k
                then (if b then some (l.contents (held h s k)) else none)
                else (if byte (l.contents s.meta) (file_index j) == 0
                    then none
                    else some (l.contents (held h s j))))
      shown database database true e = refl
      shown database database false e = refl
      shown database journal b e = rw e refl
      shown journal database b e = rw e refl
      shown journal journal true e = refl
      shown journal journal false e = refl
