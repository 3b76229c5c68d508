-- ===== src/Storage/Mp4/Strip/Clean.antt =====
-- server/internal/storage/mp4.go: what is left after stripLocationMetadata, which keeps the layout of
-- the file, and leaves no privacy box with a byte other than zero.
use check_in.Prelude.{Done, NoError, ℕ, ◌≤◌, ◌≡◌, Bool, true, false, List, length, Result}
use check_in.Slice.{Bytes, bytes_eq}
use check_in.Storage.Mp4.{Box, ascii, member, privacy_boxes, parse_boxes}
use check_in.Storage.Mp4.Boxes.{Tiles}
use check_in.Storage.Mp4.Blanked.{Blanked}
use check_in.Storage.Mp4.Layout.{Kept}

-- A container is no privacy box, and no meta box.
abbrev Plain : Bytes → Type 0
Plain t = (member privacy_boxes t ≡ false) × (bytes_eq t (ascii "meta") ≡ false)

-- A run over the boxes of a stretch writes zeros into their payloads only, and then they pass.
abbrev Cleans : (Bytes → List Box → Result NoError Bytes) → (Bytes → List Box → Bool) → Type 0
Cleans g f =
    (lo hi : ℕ) (d : Bytes) (bs : List Box) (whole : Bool)
    → hi ≤ length d
    → Tiles lo hi bs whole
    → Done (g d bs) (λ d'. Blanked lo hi d d' × Kept lo hi bs d d' × (f d' bs ≡ true))

-- The boxes of a file, and whether all of it was read.
abbrev pub layout : Bytes → Result NoError (List Box × Bool)
layout d = parse_boxes d 0 (length d)
