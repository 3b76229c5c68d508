-- ===== src/Storage/Media/Safe.antt =====
-- server/internal/storage/storage.go: no upload is stored as it came.
use check_in.Prelude.{
  ℕ, ◌≤◌, ◌≡◌, true, some, length, comparable_nat, Result, ok, err, panic, out_of_fuel,
}
use check_in.Storage.Gif.{sanitize_gif}
use check_in.Storage.Mp4.{max_box_depth}
use check_in.Storage.Mp4.Strip.Audit.{audit, audit_parsed}
use check_in.Storage.Mp4.Strip.Clean.{layout}
use check_in.Storage.Image.{Picture}
use check_in.Storage.Media.{Codecs, File, gif, mp4, png, jpg}

-- The code returns: an error, or a value with a property.
abbrev pub Ends : {E A : Type 0} → Result E A → (A → Type 0) → Type 0
Ends (ok a) P = P a
Ends (err e) P = Unit
Ends panic P = ⊥
Ends out_of_fuel P = ⊥

-- What is stored of an upload: a GIF that the sanitizer finds nothing in, an MP4 file in which no privacy box
-- holds a byte other than zero and that is a short clip with a picture, or what an encoder made of a picture; no longer than its kind may be.
abbrev pub IsClean : {Colour : Type 0} → Codecs Colour → ℕ → ℕ → File → Type 0
IsClean {Colour = Colour} c max_image_bytes max_video_bytes f = elim f.extension [
  | gif ↦ (n : ℕ) × ((sanitize_gif f.bytes ≡ ok (n, f.bytes)) × (length f.bytes ≤ max_image_bytes))
  | mp4 ↦
      (audit_parsed (audit max_box_depth f.bytes) (layout f.bytes) ≡ true)
      × (length f.bytes ≤ max_video_bytes)
      × ((1 ≤ f.duration_ms) × (f.duration_ms ≤ 12000) × (1 ≤ f.width) × (1 ≤ f.height))
  | png ↦ (img : Picture Colour) × (c.encode_png img ≡ some f.bytes)
  | jpg ↦ (img : Picture Colour) × (c.encode_jpeg img ≡ some f.bytes)
]
