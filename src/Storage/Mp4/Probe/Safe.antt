-- ===== src/Storage/Mp4/Probe/Safe.antt =====
-- server/internal/storage/mp4.go: probeMP4 stays in bounds, ends, and accepts only short clips with a picture.
use check_in.Prelude.{
  ℕ, zero, suc, ◌+◌, ◌-◌, ◌≤◌, ◌<◌, Bool, true, false, not, ◌||◌, Option, none, some, List, [], ◌∷◌,
  ltb, ◌==◌, length, take, drop, ℤ, pos, negsuc, Done, Done-ok, Done_bind, Done_if, arith,
  comparable_nat, Bool-cases, inl, inr,
}
use check_in.Slice.{Bytes, slice, bytes_eq}
use check_in.Sorting.{All}
use check_in.Storage.Mp4.{Box, ascii, member, find_box}
use check_in.Storage.Mp4.Boxes.{Inside, window-Done, parse_boxes-Inside}
use check_in.Storage.Mp4.Durations.{scale_to_ms}
use check_in.Storage.Mp4.Probe.{
  Mp4Decoder, Probed, VideoInfo, max_video_duration_ms, video_brands, has_brand_from,
  has_video_brand, find_boxes, decode_box, children, track_dimensions, sample_table_duration,
  header_ms, track_duration_ms, widen, lengthen, is_positive, probe_tracks, accept, movie_ms,
  probe_moov, probe_root, probe_mp4,
}

-- A box whose payload lies in the file.
abbrev IsIn : Bytes → Box → Type 0
IsIn d b = (0 ≤ b.start) × (b.start ≤ b.stop) × (b.stop ≤ length d)

abbrev InIfAny : Bytes → Option Box → Type 0
InIfAny d none = Unit
InIfAny d (some b) = IsIn d b

find_box-InIfAny :
    (d : Bytes) (boxes : List Box) (typ : Bytes)
    → All (IsIn d) boxes
    → InIfAny d (find_box boxes typ)
unfolding find_box
find_box-InIfAny d [] typ a = tt
find_box-InIfAny d (b ∷ boxes) typ a = elim (Bool-cases (bytes_eq b.typ typ)) [
  | inl e ↦ rw e a.0
  | inr e ↦ rw e (find_box-InIfAny d boxes typ a.1)
]

find_boxes-IsIn :
    (d : Bytes) (boxes : List Box) (typ : Bytes)
    → All (IsIn d) boxes
    → All (IsIn d) (find_boxes boxes typ)
find_boxes-IsIn d [] typ a = tt
find_boxes-IsIn d (b ∷ boxes) typ a = elim (Bool-cases (bytes_eq b.typ typ)) [
  | inl e ↦ rw e (a.0, find_boxes-IsIn d boxes typ a.1)
  | inr e ↦ rw e (find_boxes-IsIn d boxes typ a.1)
]

Inside-IsIn :
    (d : Bytes) (lo hi : ℕ) (boxes : List Box)
    → hi ≤ length d
    → Inside lo hi boxes
    → All (IsIn d) boxes
Inside-IsIn d lo hi [] h a = tt
Inside-IsIn d lo hi (b ∷ boxes) h a =
    ((omega arith, a.0.1, omega (arith, a.0.2)), Inside-IsIn d lo hi boxes h a.1)

-- A clip that is accepted is not empty, lasts for twelve seconds at most, and has a picture.
abbrev pub IsAccepted : Option VideoInfo → Type 0
IsAccepted none = Unit
IsAccepted (some v) = (1 ≤ v.duration_ms) × (v.duration_ms ≤ 12000) × (1 ≤ v.width) × (1 ≤ v.height)

module _ (m : Mp4Decoder) (d : Bytes) where
  children-IsIn : (o : Option Box) → InIfAny d o → Done (children d o) (All (IsIn d))
  children-IsIn none h = Done-ok tt
  children-IsIn (some b) h =
      Done_bind (parse_boxes-Inside d b.start b.stop h.1 h.2)
        (λ r i. Done-ok (Inside-IsIn d b.start b.stop r.0 h.2 i))

  decode_box-Done :
      {A : Type 0} (decode : Bytes → Option A) (o : Option Box)
      → InIfAny d o
      → Done (decode_box decode d o) (λ r. Unit)
  unfolding slice
  decode_box-Done decode none h = Done-ok tt
  decode_box-Done decode (some b) h = record {
    value = decode (take (b.stop - b.start) (drop b.start d));
    returned = ground (arith, h);
    holds = tt;
  }

  has_brand_from-Done :
      (fuel lo hi p : ℕ)
      → hi ≤ length d
      → hi - (lo + p) < fuel
      → Done (has_brand_from fuel d lo hi p) (λ b. Unit)
  unfolding has_brand_from
  has_brand_from-Done zero lo hi p i f = absurd (omega arith)
  has_brand_from-Done (suc fuel) lo hi p i f =
      Done_if (ltb hi (lo + p + 4)) (λ _. Done-ok tt)
        (λ e.
          let rest = has_brand_from-Done fuel lo hi (p + 4) i (ground (arith, e, f)) in
          Done_if (p == 4) (λ _. rest)
            (λ _.
              Done_bind (window-Done d hi i (lo + p) (lo + p + 4) (omega arith) (ground (arith, e)))
                (λ brand _. Done_if (member video_brands brand) (λ _. Done-ok tt) (λ _. rest))))

  track_dimensions-Done : (o : Option Box) → InIfAny d o → Done (track_dimensions m d o) (λ s. Unit)
  unfolding track_dimensions
  track_dimensions-Done o h = Done_bind (decode_box-Done m.tkhd o h) (λ t _. Done-ok tt)

  sample_table_duration-Done :
      (kids : List Box) → All (IsIn d) kids → Done (sample_table_duration m d kids) (λ n. Unit)
  unfolding sample_table_duration
  sample_table_duration-Done kids a =
      Done_bind (children-IsIn _ (find_box-InIfAny d kids (ascii "minf") a)) (λ minf b.
        Done_bind (children-IsIn _ (find_box-InIfAny d minf (ascii "stbl") b)) (λ stbl c.
          Done_bind (decode_box-Done m.stts _ (find_box-InIfAny d stbl (ascii "stts") c))
            (λ table _. Done-ok tt)))

  header_ms-Done :
      (kids : List Box) (o : Option (ℕ × ℕ))
      → All (IsIn d) kids
      → Done (header_ms m d kids o) (λ ms. Unit)
  header_ms-Done kids none a = Done-ok tt
  header_ms-Done kids (some (duration, timescale)) a =
      Done_if (ltb 0 (scale_to_ms duration timescale)) (λ _. Done-ok tt)
        (λ _. Done_bind (sample_table_duration-Done kids a) (λ total _. Done-ok tt))

  track_duration_ms-Done :
      (kids : List Box) → All (IsIn d) kids → Done (track_duration_ms m d kids) (λ ms. Unit)
  unfolding track_duration_ms
  track_duration_ms-Done kids a =
      Done_bind (children-IsIn _ (find_box-InIfAny d kids (ascii "mdia") a)) (λ mdia b.
        Done_bind (decode_box-Done m.mdhd _ (find_box-InIfAny d mdia (ascii "mdhd") b))
          (λ header _. header_ms-Done mdia header b))

  lengthen-Done :
      (kids : List Box) (info : Probed)
      → All (IsIn d) kids
      → Done (lengthen m d kids info) (λ i. Unit)
  lengthen-Done kids info a =
      Done_if (is_positive info.duration) (λ _. Done-ok tt)
        (λ _. Done_bind (track_duration_ms-Done kids a) (λ ms _. Done-ok tt))

  probe_tracks-Done :
      (traks : List Box) (info : Probed)
      → All (IsIn d) traks
      → Done (probe_tracks m d traks info) (λ i. Unit)
  unfolding probe_tracks
  probe_tracks-Done [] info a = Done-ok tt
  probe_tracks-Done (trak ∷ traks) info a = Done_bind (children-IsIn (some trak) a.0) (λ kids b.
      Done_bind (track_dimensions-Done _ (find_box-InIfAny d kids (ascii "tkhd") b)) (λ size _.
        Done_bind (lengthen-Done kids (widen info size) b)
          (λ next _. probe_tracks-Done traks next a.1)))

  accept-IsAccepted : (ms : ℤ) (w h : ℕ) → IsAccepted (accept ms w h)
  accept-IsAccepted (negsuc n) w h = tt
  accept-IsAccepted (pos n) w h =
      elim (Bool-cases ((n == 0 || ltb max_video_duration_ms n) || (w == 0 || h == 0))) [
        | inl e ↦ rw e tt
        | inr e ↦ rw e (ground (arith, e), ground (arith, e), ground (arith, e), ground (arith, e))
      ]

  probe_moov-Done : (o : Option Box) → InIfAny d o → Done (probe_moov m d o) IsAccepted
  probe_moov-Done none h = Done-ok tt
  probe_moov-Done (some moov) h = Done_bind (children-IsIn (some moov) h) (λ kids a.
      Done_bind (decode_box-Done m.mvhd _ (find_box-InIfAny d kids (ascii "mvhd") a)) (λ header _.
        Done_bind
          (probe_tracks-Done (find_boxes kids (ascii "trak"))
            (record { duration = movie_ms header; width = 0; height = 0 })
            (find_boxes-IsIn d kids (ascii "trak") a))
          (λ info _. Done-ok (accept-IsAccepted info.duration info.width info.height))))

  probe_root-Done :
      (root : List Box) (whole : Bool)
      → All (IsIn d) root
      → Done (probe_root m d root whole) IsAccepted
  unfolding has_video_brand
  probe_root-Done root false a = Done-ok tt
  probe_root-Done [] true a = Done-ok tt
  probe_root-Done (b ∷ boxes) true a =
      Done_if (not (bytes_eq b.typ (ascii "ftyp")) || ltb (b.stop - b.start) 4) (λ _. Done-ok tt)
        (λ _.
          Done_bind
            (has_brand_from-Done (suc (b.stop - b.start)) b.start b.stop 0 a.0.2 (omega arith))
            (λ video _.
              Done_if (not video) (λ _. Done-ok tt)
                (λ _. probe_moov-Done _ (find_box-InIfAny d (b ∷ boxes) (ascii "moov") a))))

  -- Probing any file whatever returns: no read is out of bounds, and no walk runs out of fuel. A clip that is
  -- accepted lasts for a millisecond at least and for twelve seconds at most, and neither its width nor its
  -- height is 0.
  pub probe_mp4-IsAccepted : Done (probe_mp4 m d) IsAccepted
  unfolding probe_mp4
  probe_mp4-IsAccepted =
      Done_bind (parse_boxes-Inside d 0 (length d) (omega arith) (omega arith)) (λ root i.
        probe_root-Done root.0 root.1 (Inside-IsIn d 0 (length d) root.0 (omega arith) i))
