-- ===== src/Storage/Mp4/Strip/Safe.antt =====
-- server/internal/storage/mp4.go: stripLocationMetadata always ends, reads and writes in bounds, and
-- only ever replaces bytes by zeros.
use check_in.Prelude.{
  Done, Done-ok, Done_bind, Done_if, Done_map, NoError, ℕ, zero, suc, ◌+◌, ◌≤◌, ◌≡◌, ◌&&◌, ◌||◌,
  Option, none, some, List, [], ◌∷◌, ltb, length, Result, ok, ◌>>=◌, arith, comparable_nat,
}
use check_in.Slice.{Bytes, bytes_eq}
use check_in.Storage.Mp4.{
  Box, max_box_depth, max_box_siblings, ascii, member, mp4_containers, privacy_boxes, big_endian,
  find_box,
}
use check_in.Storage.Mp4.Boxes.{
  Inside, InsideIfAny, find_box-Inside, window-Done, parse_boxes-Inside, parse_indexed_boxes-Inside,
  looks_like_box_header-Done,
}
use check_in.Storage.Mp4.Blanked.{
  Blanked, Blanked-refl, Blanked-trans, Blanked-widen, clear_window-Blanked,
}
use check_in.Storage.Mp4.Strip.{
  blank_data, blank_ilst_value, read_keys, keys_of, metadata_keys, meta_children, key_name,
  privacy_key, blank_entries, blank_ilst, strip_meta_box, strip_box, strip_each, strip_boxes,
  strip_location_metadata,
}

-- One blanking after another.
then_blank :
    {lo hi : ℕ} {d : Bytes} {r : Result NoError Bytes} {f : Bytes → Result NoError Bytes}
    → Done r (Blanked lo hi d)
    → ((d' : Bytes) → length d' ≡ length d → Done (f d') (Blanked lo hi d'))
    → Done (r >>= f) (Blanked lo hi d)
then_blank h k = Done_bind h (λ d' b. Done_map (k d' b.size) (λ d'' c. Blanked-trans b c))

widen :
    {lo hi : ℕ} (l h : ℕ) {d : Bytes} {r : Result NoError Bytes}
    → lo ≤ l
    → h ≤ hi
    → Done r (Blanked l h d)
    → Done r (Blanked lo hi d)
widen l u p q h = Done_map h (λ d' b. Blanked-widen p q b)

same : {lo hi : ℕ} {d : Bytes} → Done {E = NoError} (ok d) (Blanked lo hi d)
same {d} = Done-ok (Blanked-refl _ _ d)

pub Inside-widen :
    {lo hi : ℕ} (l h : ℕ) (bs : List Box) → lo ≤ l → h ≤ hi → Inside l h bs → Inside lo hi bs
Inside-widen l h [] p q k = tt
Inside-widen l h (b ∷ bs) p q k = (omega (arith, k.0), Inside-widen l h bs p q k.1)

module _ (hi : ℕ) where
  read_keys-Done :
      (count : ℕ) (d : Bytes) (p : ℕ) → hi ≤ length d → Done (read_keys count d hi p) (λ keys. Unit)
  unfolding read_keys
  read_keys-Done zero d p h = Done-ok tt
  read_keys-Done (suc count) d p h =
      Done_if (ltb hi (p + 8)) (λ _. Done-ok tt)
        (λ e. Done_bind (window-Done d hi h p (p + 4) (omega arith) (ground arith)) (λ word _.
          Done_if (ltb (big_endian 0 word) 8 || ltb hi (p + big_endian 0 word)) (λ _. Done-ok tt)
            (λ f.
              Done_bind
                (window-Done d hi h (p + 8) (p + big_endian 0 word) (ground arith) (ground arith))
                (λ key _.
                  Done_bind (read_keys-Done count d (p + big_endian 0 word) h)
                    (λ keys _. Done-ok tt)))))

module _ (lo hi : ℕ) where
  blank_data-Done :
      (d : Bytes) (ks : List Box)
      → hi ≤ length d
      → Inside lo hi ks
      → Done (blank_data d ks) (Blanked lo hi d)
  unfolding blank_data
  blank_data-Done d [] h k = same
  blank_data-Done d (b ∷ bs) h k =
      then_blank
        (Done_if (bytes_eq b.typ (ascii "data") && ltb (b.start + 8) b.stop)
          (λ e.
            widen (b.start + 8) b.stop (omega (arith, k.0)) (omega (arith, k.0))
              (clear_window-Blanked d (b.start + 8) b.stop (ground arith) (omega (arith, k.0))))
          (λ e. same))
        (λ d' e. blank_data-Done d' bs (omega arith) k.1)

  blank_ilst_value-Done :
      (d : Bytes) (b : Box)
      → hi ≤ length d
      → InsideIfAny lo hi (some b)
      → Done (blank_ilst_value d b) (Blanked lo hi d)
  unfolding blank_ilst_value
  blank_ilst_value-Done d b h k =
      Done_bind (parse_boxes-Inside d b.start b.stop (omega (arith, k)) (omega (arith, k))) (λ r s.
        blank_data-Done d r.0 h
          (Inside-widen b.start b.stop r.0 (omega (arith, k)) (omega (arith, k)) s))

  keys_of-Done :
      (d : Bytes) (o : Option Box)
      → hi ≤ length d
      → InsideIfAny lo hi o
      → Done (keys_of d o) (λ keys. Unit)
  unfolding keys_of
  keys_of-Done d none h k = Done-ok tt
  keys_of-Done d (some b) h k =
      let inside : b.stop ≤ length d = omega (arith, k) in
      Done_if (ltb b.stop (b.start + 8)) (λ _. Done-ok tt)
        (λ e.
          Done_bind
            (window-Done d b.stop inside (b.start + 4) (b.start + 8) (omega arith) (ground arith))
            (λ word _.
              Done_if (ltb max_box_siblings (big_endian 0 word)) (λ _. Done-ok tt)
                (λ _. read_keys-Done b.stop (big_endian 0 word) d (b.start + 8) inside)))

  meta_children-Done :
      (d : Bytes)
      → lo ≤ hi
      → hi ≤ length d
      → Done (meta_children d lo hi) (λ r. (lo ≤ r.0) × (r.0 ≤ r.1) × (r.1 ≤ hi))
  unfolding meta_children
  meta_children-Done d o h = Done_bind (looks_like_box_header-Done d lo hi o h) (λ plain _.
      Done_if plain (λ _. Done-ok (omega arith))
        (λ _.
          Done_if (ltb hi (lo + 4)) (λ _. Done-ok (omega arith))
            (λ e.
              Done_bind (looks_like_box_header-Done d (lo + 4) hi (ground arith) h)
                (λ behind _. Done-ok (ground arith)))))

module _ (to_lower : Bytes → Bytes) (lo hi : ℕ) where
  blank_entries-Done :
      (d : Bytes) (keys : List Bytes) (es : List Box)
      → hi ≤ length d
      → Inside lo hi es
      → Done (blank_entries to_lower d keys es) (Blanked lo hi d)
  unfolding blank_entries
  blank_entries-Done d keys [] h k = same
  blank_entries-Done d keys (e ∷ es) h k =
      then_blank
        (Done_if
          (privacy_key to_lower (key_name keys (big_endian 0 e.typ)) || member privacy_boxes e.typ)
          (λ _. blank_ilst_value-Done lo hi d e h k.0) (λ _. same))
        (λ d' q. blank_entries-Done d' keys es (omega arith) k.1)

  blank_ilst-Done :
      (d : Bytes) (keys : List Bytes) (o : Option Box)
      → hi ≤ length d
      → InsideIfAny lo hi o
      → Done (blank_ilst to_lower d keys o) (Blanked lo hi d)
  unfolding blank_ilst
  blank_ilst-Done d keys none h k = same
  blank_ilst-Done d keys (some b) h k =
      Done_bind (parse_indexed_boxes-Inside d b.start b.stop (omega (arith, k)) (omega (arith, k)))
        (λ r s.
          blank_entries-Done d keys r.0 h
            (Inside-widen b.start b.stop r.0 (omega (arith, k)) (omega (arith, k)) s))

  pub strip_meta_box-Done :
      (d : Bytes)
      → lo ≤ hi
      → hi ≤ length d
      → Done (strip_meta_box to_lower d lo hi) (Blanked lo hi d)
  unfolding strip_meta_box metadata_keys
  strip_meta_box-Done d o h = Done_bind (meta_children-Done lo hi d o h) (λ at k.
      Done_bind (parse_boxes-Inside d at.0 at.1 (omega (arith, k)) (omega (arith, k))) (λ r s.
        let kids = Inside-widen at.0 at.1 r.0 (omega (arith, k)) (omega (arith, k)) s in
        Done_bind
          (keys_of-Done lo hi d (find_box r.0 (ascii "keys")) h (find_box-Inside lo hi r.0 _ kids))
          (λ keys _.
            blank_ilst-Done d keys (find_box r.0 (ascii "ilst")) h
              (find_box-Inside lo hi r.0 _ kids))))

-- A function on boxes that only blanks, between the ends of the boxes' stretch.
abbrev Blanks : (Bytes → List Box → Result NoError Bytes) → Type 0
Blanks f =
    (lo hi : ℕ) (d : Bytes) (bs : List Box)
    → hi ≤ length d
    → Inside lo hi bs
    → Done (f d bs) (Blanked lo hi d)

module _ (to_lower : Bytes → Bytes) (strip_kids : Bytes → List Box → Result NoError Bytes)
    (h : Blanks strip_kids) where
  -- One box is blanked within its own payload.
  strip_box-Done :
      (d : Bytes) (b : Box)
      → b.start ≤ b.stop
      → b.stop ≤ length d
      → Done (strip_box to_lower strip_kids d b) (Blanked b.start b.stop d)
  unfolding strip_box
  strip_box-Done d b o i =
      Done_if (member privacy_boxes b.typ) (λ _. clear_window-Blanked d b.start b.stop o i)
        (λ _.
          Done_if (bytes_eq b.typ (ascii "meta"))
            (λ _. strip_meta_box-Done to_lower b.start b.stop d o i)
            (λ _.
              Done_if (member mp4_containers b.typ)
                (λ _.
                  Done_bind (parse_boxes-Inside d b.start b.stop o i)
                    (λ r s. h b.start b.stop d r.0 i s))
                (λ _. same)))

  strip_each-Done : Blanks (strip_each to_lower strip_kids)
  unfolding strip_each
  strip_each-Done lo hi d [] i k = same
  strip_each-Done lo hi d (b ∷ bs) i k =
      then_blank
        (widen b.start b.stop (omega (arith, k.0)) (omega (arith, k.0))
          (strip_box-Done d b (omega (arith, k.0)) (omega (arith, k.0))))
        (λ d' e. strip_each-Done lo hi d' bs (omega arith) k.1)

strip_boxes-Done : (to_lower : Bytes → Bytes) (levels : ℕ) → Blanks (strip_boxes to_lower levels)
unfolding strip_boxes
strip_boxes-Done to_lower zero lo hi d bs i k = same
strip_boxes-Done to_lower (suc levels) lo hi d bs i k =
    strip_each-Done to_lower (strip_boxes to_lower levels) (strip_boxes-Done to_lower levels) lo hi
      d bs i k

-- Stripping any file whatever returns a file, which is as long, and in which every byte is the one
-- that was there or zero: no read or write is out of bounds, and every loop ends.
pub strip_location_metadata-Done :
    (to_lower : Bytes → Bytes) (d : Bytes)
    → Done (strip_location_metadata to_lower d) (Blanked 0 (length d) d)
unfolding strip_location_metadata
strip_location_metadata-Done to_lower d =
    Done_bind (parse_boxes-Inside d 0 (length d) (omega arith) (omega arith))
      (λ r s. strip_boxes-Done to_lower max_box_depth 0 (length d) d r.0 (omega arith) s)
