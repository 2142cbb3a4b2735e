-- ===== src/TwoFiles/Laws.antt =====
-- The database and the journal in the OPFS file system without a worker
-- (mobile/web/drift_worker.dart.js, `A.dm`): which of them exist, and what they hold.
use Prim.Native.String.{String}
use mathlib.Core.Path.{subst}
use bojairu.Prelude.{
  ℕ, ◌+◌, ◌≡◌, ◌≤◌, refl, ap, ◌∙◌, false, none, some, List, [], arith, ltb, if◌then◌else◌, length,
  Option-cases, inl, inr, ext_of_get_or,
}
use bojairu.Bytes.{overwrite, zeros}
use bojairu.Bytes.Flat.{
  byte, write_at, length-overwrite, byte-overwrite, length-resize, length-zeros, byte-zeros,
}
use bojairu.Bytes.Pieces.{take_written}
use bojairu.TwoFiles.Flags.{
  same_kind, found, IsReady, InSync, TakesAll, set_flag_lem, found-set_flag,
}
use bojairu.TwoFiles.Opening.{found-with_held, held-with_held}
use bojairu.TwoFiles.{
  read_named, write_named, Handles, HandleLaws, FileKind, file_index, file_kind, TwoFiles, held,
  with_held, delete_named, start_two_files,
}

overwrite_all : (array a : List ℕ) → length array ≡ length a → overwrite array 0 a ≡ a
overwrite_all array a e =
    let fits : 0 + length a ≤ length array = omega (arith, e) in
    ext_of_get_or _ _ 0 (length-overwrite array 0 a fits ∙ e) (λ i w.
      byte-overwrite array 0 a i fits ∙ ground (arith, w, e, length-overwrite array 0 a fits))

module _ (h : Handles) (l : HandleLaws h) where
  -- Once the bytes are those of "meta", a deletion takes one file away and nothing else.
  pub found-delete_named :
      (s : TwoFiles h) (a : String) (k : FileKind)
      → TakesAll h l
      → file_kind a ≡ some k
      → InSync h l s
      → InSync h l (delete_named h s a)
        × ((j : FileKind)
            → found h l (delete_named h s a) j ≡ (if same_kind j k then none else found h l s j))
  unfolding delete_named
  found-delete_named s a k takes e v =
      rw (e, delete_named)
        (
          (set_flag_lem h l s k false takes v.is_ready).0,
          λ j. found-set_flag h l s k j false takes v,
        )

  start_two_files-IsReady :
      (meta main log : h.Held) (s : TwoFiles h)
      → start_two_files h meta main log ≡ some s
      → IsReady h l s × ((j : FileKind) → byte s.flags (file_index j) ≡ 0)
  unfolding start_two_files
  start_two_files-IsReady meta main log s f = elim (Option-cases (h.set_size meta 2)) [
    | inl e ↦ absurd (ground (arith, f, e))
    | inr (i, e) ↦
        let s₁ : TwoFiles h = record {
          meta = i;
          main = main;
          log = log;
          flags = zeros 2;
          memory = [];
        } in
        let same : s₁ ≡ s = ground (arith, f, e) in
        subst
          (λ (x : TwoFiles h). IsReady h l x × ((j : FileKind) → byte x.flags (file_index j) ≡ 0))
          same
          (
            record {
              flags_size = length-zeros 2;
              meta_size =
                  ap (λ (c : List ℕ). length c) (l.set_size_lem meta i 2 e)
                  ∙ length-resize (l.contents meta) 2;
            },
            λ j. byte-zeros 2 (file_index j),
          )
  ]

  -- In the OPFS file system without a worker, if the disk takes all the bytes of each write: where
  -- the first call after the start deletes the database or its journal, neither of the two exists
  -- afterwards, whatever "meta" said on the disk, since both bytes are written and none was read
  -- before.
  pub delete_named-start_two_files :
      (meta main log : h.Held) (s : TwoFiles h) (a : String) (k : FileKind)
      → TakesAll h l
      → file_kind a ≡ some k
      → start_two_files h meta main log ≡ some s
      → (j : FileKind) → found h l (delete_named h s a) j ≡ none
  unfolding delete_named found
  delete_named-start_two_files meta main log s a k takes e f j =
      let (ready, blank) = start_two_files-IsReady meta main log s f in
      let x = (set_flag_lem h l s k false takes ready).1 j in
      rw (e, delete_named) (ground (arith, x, blank j))

  read_named_lem :
      (s : TwoFiles h) (k : FileKind) (array a : List ℕ) (b : ℕ)
      → h.read_bytes (held h s k) b (length array) ≡ a
      → length array ≡ length a
      → read_named h s k array b ≡ (a, none)
  unfolding read_named
  read_named_lem s k array a b g e =
      let z : ltb (length a) (length array) ≡ false = ground (arith, e) in
      rw (g, read_named) (rw z (ap (λ (c : List ℕ). (c, none)) (overwrite_all array a e)))

  write_named_lem :
      (s : TwoFiles h) (k : FileKind) (a : List ℕ) (b : ℕ)
      → (h.write_bytes (held h s k) b a).1 ≡ length a
      → write_named h s k a b ≡ (with_held h s k ((h.write_bytes (held h s k) b a).0), none)
  unfolding write_named
  write_named_lem s k a b e =
      let z : ltb ((h.write_bytes (held h s k) b a).1) (length a) ≡ false = ground (arith, e) in
      rw (z, write_named) refl

  -- What was written to the database or its journal is read back whole at the same place into an
  -- array of its length, if the disk takes all the bytes: both calls succeed, the file's content
  -- has the bytes written over it, and the other file is there as before with its content.
  pub read_named-write_named :
      (s : TwoFiles h) (k : FileKind) (a array : List ℕ) (b : ℕ)
      → TakesAll h l
      → length array ≡ length a
      → (s' : TwoFiles h) × (write_named h s k a b ≡ (s', none))
        × (read_named h s' k array b ≡ (a, none))
        × (l.contents (held h s' k) ≡ write_at (l.contents (held h s k)) b a)
        × ((j : FileKind) → same_kind j k ≡ false → found h l s' j ≡ found h l s j)
  read_named-write_named s k a array b takes e =
      let f = (h.write_bytes (held h s k) b a).0 in
      let all = takes (held h s k) b a in
      let stored : l.contents (held h (with_held h s k f) k)
          ≡ write_at (l.contents (held h s k)) b a =
        ap l.contents (held-with_held h l s k f) ∙ l.write_bytes_lem (held h s k) b a all in
      let got : h.read_bytes (held h (with_held h s k f) k) b (length array) ≡ a =
        l.read_bytes_lem (held h (with_held h s k f) k) b (length array)
        ∙ rw (stored, e) (take_written (l.contents (held h s k)) b a) in
      (
        with_held h s k f,
        write_named_lem s k a b all,
        read_named_lem (with_held h s k f) k array a b got e,
        stored,
        λ j n. found-with_held h l s k j f n,
      )
