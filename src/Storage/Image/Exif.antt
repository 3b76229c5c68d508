-- ===== src/Storage/Image/Exif.antt =====
-- server/internal/storage/storage.go: the EXIF walk ends, reads no byte out of bounds, and finds what a
-- camera wrote.
use check_in.Prelude.{
  Done, Done-ok, Done_bind, Done_if, NoError, ℕ, zero, suc, ◌+◌, ◌-◌, ◌*◌, ◌≤◌, ◌<◌, ◌≡◌, refl,
  Bool, true, false, not, ◌||◌, inl, inr, Option, none, some, [], ◌∷◌, ltb, leb, ◌==◌,
  if◌then◌else◌, length, take, drop, length-take, length-drop, Result, comparable_nat, arith,
  Bool-cases, get_elem?,
}
use check_in.Slice.{Bytes, index, slice}
use check_in.Maps.{comparable_bytes}
use check_in.Storage.Image.{
  jpeg_segment, ByteOrder, little_endian, big_endian, uint16_at, uint32_at, find_orientation,
  orientation_tag, first_directory, exif_header, parse_exif_orientation, at_segment, walk_segments,
  exif_orientation,
}

get_elem?_inside : (d : Bytes) (i : ℕ) → i < length d → (b : ℕ) × (get_elem? d i ≡ some b)
get_elem?_inside [] i h = absurd (omega arith)
get_elem?_inside (b ∷ d) zero h = (b, refl)
get_elem?_inside (b ∷ d) (suc i) h = get_elem?_inside d i (omega arith)

index-Done : (d : Bytes) (i : ℕ) → i < length d → Done {E = NoError} (index d i) (λ b. Unit)
unfolding index
index-Done d i h =
    let (b, e) = get_elem?_inside d i h in
    record { value = b; returned = rw (e, index) refl; holds = tt }

slice-Done :
    (d : Bytes) (i j : ℕ)
    → i ≤ j
    → j ≤ length d
    → Done {E = NoError} (slice d i j) (λ s. length s ≡ j - i)
unfolding slice
slice-Done d i j h k = record {
  value = take (j - i) (drop i d);
  returned = ground (arith, h, k);
  holds = omega (arith, h, k, length-take (j - i) (drop i d), length-drop i d);
}

uint16_at-Done :
    (bo : ByteOrder) (d : Bytes) (i : ℕ) → i + 2 ≤ length d → Done (uint16_at bo d i) (λ n. Unit)
unfolding uint16_at
uint16_at-Done bo d i h =
    Done_bind (index-Done d i (omega arith))
      λ a _. Done_bind (index-Done d (i + 1) (omega arith)) λ b _. Done-ok tt

uint32_at-Done :
    (bo : ByteOrder) (d : Bytes) (i : ℕ) → i + 4 ≤ length d → Done (uint32_at bo d i) (λ n. Unit)
unfolding uint32_at
uint32_at-Done bo d i h =
    Done_bind (uint16_at-Done bo d i (omega arith))
      λ a _. Done_bind (uint16_at-Done bo d (i + 2) (omega arith)) λ b _. Done-ok tt

find_orientation-Done :
    (bo : ByteOrder) (tiff : Bytes) (e n : ℕ) → Done (find_orientation bo tiff e n) (λ o. o ≤ 8)
unfolding find_orientation
find_orientation-Done bo tiff e zero = Done-ok (omega arith)
find_orientation-Done bo tiff e (suc n) =
    Done_if (ltb (length tiff) (e + 12)) (λ _. Done-ok (omega arith))
      λ inside. Done_bind (uint16_at-Done bo tiff e (ground (arith, inside))) λ tag _.
        Done_if (tag == orientation_tag)
          (λ _.
            Done_bind (uint16_at-Done bo tiff (e + 8) (ground (arith, inside)))
              λ v _. Done-ok (ground arith))
          (λ _. find_orientation-Done bo tiff (e + 12) n)

first_directory-Done :
    (bo : ByteOrder) (tiff : Bytes) → 8 ≤ length tiff → Done (first_directory bo tiff) (λ o. o ≤ 8)
unfolding first_directory
first_directory-Done bo tiff h = Done_bind (uint32_at-Done bo tiff 4 (omega arith)) λ ifd _.
    Done_if (ltb (length tiff) (ifd + 2)) (λ _. Done-ok (omega arith))
      λ inside.
        Done_bind (uint16_at-Done bo tiff ifd (ground (arith, inside)))
          λ count _. find_orientation-Done bo tiff (ifd + 2) count

parse_exif_orientation-Done : (seg : Bytes) → Done (parse_exif_orientation seg) (λ o. o ≤ 8)
unfolding parse_exif_orientation
parse_exif_orientation-Done seg =
    Done_if (ltb (length seg) 14) (λ _. Done-ok (omega arith))
      λ long. Done_bind (slice-Done seg 0 6 (omega arith) (ground (arith, long))) λ header _.
        Done_bind (slice-Done seg 6 (length seg) (ground (arith, long)) (omega arith)) λ tiff len.
          Done_bind (slice-Done tiff 0 2 (omega arith) (ground (arith, long, len))) λ order _.
            Done_if (not (header == exif_header)) (λ _. Done-ok (omega arith))
              λ _.
                Done_if (order == (0x49 ∷ 0x49 ∷ []))
                  (λ _. first_directory-Done little_endian tiff (ground (arith, long, len)))
                  λ _.
                    Done_if (order == (0x4D ∷ 0x4D ∷ []))
                      (λ _. first_directory-Done big_endian tiff (ground (arith, long, len)))
                      λ _. Done-ok (omega arith)

-- One of the eight orientations.
abbrev pub IsOrientation : ℕ → Type 0
IsOrientation o = (1 ≤ o) × (o ≤ 8)

-- A segment, if there is one, lies in the file.
abbrev SegmentFits : Bytes → ℕ → Option (ℕ × ℕ) → Type 0
SegmentFits d i none = Unit
SegmentFits d i (some (marker, size)) = (2 ≤ size) × (i + 2 + size ≤ length d)

segment_fits :
    (d : Bytes) (i marker size : ℕ) (other : Bool)
    → SegmentFits d i (
        if other
        then none
        else if ltb size 2 || ltb (length d) (i + 2 + size)
        then none
        else some (marker, size))
segment_fits d i marker size true = tt
segment_fits d i marker size false =
    elim (Bool-cases (ltb size 2 || ltb (length d) (i + 2 + size))) [
      | inl e ↦ rw e tt
      | inr e ↦ rw e (ground (arith, e), ground (arith, e))
    ]

jpeg_segment-Done :
    (d : Bytes) (i : ℕ) → i + 4 ≤ length d → Done (jpeg_segment d i) (SegmentFits d i)
unfolding jpeg_segment
jpeg_segment-Done d i h = Done_bind (index-Done d i (omega arith)) λ b _.
    Done_bind (index-Done d (i + 1) (omega arith)) λ marker _.
      Done_bind (index-Done d (i + 2) (omega arith)) λ hi _.
        Done_bind (index-Done d (i + 3) (omega arith)) λ lo _. Done-ok (
          segment_fits d i marker (hi * 256 + lo)
            (not (b == 0xFF) || (marker == 0xDA || marker == 0xD9)))

at_segment-Done :
    (d : Bytes) (i : ℕ) (more : ℕ → Result NoError ℕ) (o : Option (ℕ × ℕ))
    → i + 4 ≤ length d
    → SegmentFits d i o
    → ((j : ℕ) → i < j → Done (more j) IsOrientation)
    → Done (at_segment d i more o) IsOrientation
unfolding at_segment
at_segment-Done d i more none h k f = Done-ok (omega arith, omega arith)
at_segment-Done d i more (some (marker, size)) h k f =
    Done_if (marker == 0xE1)
      (λ _.
        Done_bind
          (Done_bind (slice-Done d (i + 4) (i + 2 + size) (omega (arith, k)) (omega (arith, k)))
            λ seg _. parse_exif_orientation-Done seg)
          λ o le.
            Done_if (not (o == 0)) (λ e. Done-ok (ground (arith, e), le))
              (λ _. f (i + 2 + size) (omega arith)))
      (λ _. f (i + 2 + size) (omega arith))

walk_segments-Done :
    (fuel : ℕ) (d : Bytes) (i : ℕ)
    → length d - i < fuel
    → Done (walk_segments fuel d i) IsOrientation
unfolding walk_segments
walk_segments-Done zero d i h = absurd (omega arith)
walk_segments-Done (suc fuel) d i h =
    Done_if (leb (i + 4) (length d))
      (λ e. Done_bind (jpeg_segment-Done d i (ground (arith, e))) λ o k.
        at_segment-Done d i (walk_segments fuel d) o (ground (arith, e)) k
          (λ j l. walk_segments-Done fuel d j (ground (arith, e, l, h))))
      (λ _. Done-ok (omega arith, omega arith))

-- Whatever the bytes of an upload are, the walk for its orientation ends without reading out of bounds, and
-- returns one of the orientations from 1 to 8.
pub exif_orientation-Done : (d : Bytes) → Done (exif_orientation d) IsOrientation
unfolding exif_orientation
exif_orientation-Done d =
    Done_if (ltb (length d) 4) (λ _. Done-ok (omega arith, omega arith))
      λ long. Done_bind (index-Done d 0 (ground (arith, long))) λ a _.
        Done_bind (index-Done d 1 (ground (arith, long))) λ b _.
          Done_if (not (a == 0xFF) || not (b == 0xD8)) (λ _. Done-ok (omega arith, omega arith))
            λ _. walk_segments-Done (suc (length d)) d 2 (omega arith)
