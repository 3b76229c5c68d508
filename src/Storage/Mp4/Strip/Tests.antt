-- ===== src/Storage/Mp4/Strip/Tests.antt =====
-- server/internal/storage/mp4.go: tests, and the theorems at concrete files.
use check_in.Prelude.{Done, ℕ, ◌≡◌, refl, [], ◌∷◌, ◌++◌, ◌+◌, length, ok, arith}
use check_in.Slice.{Bytes, clear, slice, zero_range}
use check_in.Storage.Mp4.{
  ascii, window, box_size, bounded_box, parse_box, or_stop, parse_box_list, parse_boxes,
  parse_indexed_boxes, find_box, looks_like_box_header, valid_box_type, member, clear_window,
}
use check_in.Storage.Mp4.Boxes.{Tiles, parse_boxes-Tiles}
use check_in.Storage.Mp4.Blanked.{Blanked}
use check_in.Storage.Mp4.Strip.{
  contains, contains_any, blank_data, blank_ilst_value, read_keys, keys_of, metadata_keys,
  meta_children, privacy_key, blank_entries, blank_ilst, strip_meta_box, strip_box, strip_each,
  strip_boxes, strip_location_metadata,
}
use check_in.Storage.Mp4.Strip.Safe.{strip_location_metadata-Done}

abbrev as_is : Bytes → Bytes
as_is s = s

-- moov and udta, with coordinates
abbrev clip_with : ℕ → ℕ → Bytes
clip_with x y =
    0
    ∷ 0
    ∷ 0
    ∷ 26
    ∷ (ascii "moov"
        ++ (0
            ∷ 0
            ∷ 0
            ∷ 18
            ∷ (ascii "udta" ++ (0 ∷ 0 ∷ 0 ∷ 10 ∷ 0xA9 ∷ (ascii "xyz" ++ (x ∷ y ∷ []))))))

-- a meta box with one key, for which the ilst holds a value of two bytes
abbrev meta_with : Bytes → ℕ → ℕ → Bytes
meta_with key x y =
    0
    ∷ 0
    ∷ 0
    ∷ 74
    ∷ (ascii "meta"
        ++ (0
            ∷ 0
            ∷ 0
            ∷ (24 + length key)
            ∷ (ascii "keys"
                ++ (0
                    ∷ 0
                    ∷ 0
                    ∷ 0
                    ∷ 0
                    ∷ 0
                    ∷ 0
                    ∷ 1
                    ∷ 0
                    ∷ 0
                    ∷ 0
                    ∷ (8 + length key)
                    ∷ (ascii "mdta"
                        ++ (key
                            ++ (0
                                ∷ 0
                                ∷ 0
                                ∷ 34
                                ∷ (ascii "ilst"
                                    ++ (0
                                        ∷ 0
                                        ∷ 0
                                        ∷ 26
                                        ∷ 0
                                        ∷ 0
                                        ∷ 0
                                        ∷ 1
                                        ∷ 0
                                        ∷ 0
                                        ∷ 0
                                        ∷ 18
                                        ∷ (ascii "data"
                                            ++ (0 ∷ 0 ∷ 0 ∷ 1 ∷ 0 ∷ 0 ∷ 0 ∷ 0 ∷ x ∷ y
                                                ∷ [])))))))))))

strip_test : strip_location_metadata as_is (clip_with 43 52) ≡ ok (clip_with 0 0)
unfolding strip_location_metadata strip_boxes strip_each strip_box clear_window clear zero_range
    parse_boxes parse_box_list parse_box or_stop box_size bounded_box window slice valid_box_type
    member
strip_test = refl

strip_meta_test :
    strip_location_metadata as_is (meta_with (ascii "location") 43 52)
    ≡ ok (meta_with (ascii "location") 0 0)
unfolding strip_location_metadata strip_boxes strip_each strip_box clear_window clear zero_range
    parse_boxes parse_box_list parse_box or_stop box_size bounded_box window slice valid_box_type
    member strip_meta_box meta_children looks_like_box_header metadata_keys keys_of read_keys
    find_box blank_ilst parse_indexed_boxes blank_entries privacy_key contains_any contains
    blank_ilst_value blank_data
strip_meta_test = refl

strip_location_metadata-Done_example :
    Done (strip_location_metadata as_is (clip_with 43 52)) (Blanked 0 26 (clip_with 43 52))
strip_location_metadata-Done_example = strip_location_metadata-Done as_is (clip_with 43 52)

parse_boxes-Tiles_example : Done (parse_boxes (clip_with 43 52) 8 26) (λ r. Tiles 8 26 r.0 r.1)
parse_boxes-Tiles_example = parse_boxes-Tiles (clip_with 43 52) 8 26 (omega arith) (omega arith)
