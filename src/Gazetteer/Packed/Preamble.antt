-- ===== src/Gazetteer/Packed/Preamble.antt =====
-- server/internal/gazetteer/gazetteer.go: `readHeader` of a header that the packer wrote.
use check_in.Prelude.{ℕ, ◌<◌, ◌^◌, ◌≡◌, refl, ap, ◌∙◌, ◌++◌, length, arith, ok, length-append}
use check_in.Slice.{Bytes}
use check_in.Gazetteer.{ReaderAt, Header, header_size, parse_header, read_header, read}
use check_in.Gazetteer.Packed.{pack_header, Holds}
use check_in.Gazetteer.Packed.Columns.{take-prefix}

-- Every field fits its width.
pub record HeaderFits (h : Header) : Type 0 where
  pub key_count : h.key_count < 2 ^ 32
  pub hashes_offset : h.hashes_offset < 2 ^ 64
  pub entry_indices_offset : h.entry_indices_offset < 2 ^ 64
  pub flags_offset : h.flags_offset < 2 ^ 64
  pub lat_offset : h.lat_offset < 2 ^ 64
  pub lng_offset : h.lng_offset < 2 ^ 64
  pub population_offset : h.population_offset < 2 ^ 64

pub length-pack_header : (n : ℕ) (h : Header) → length (pack_header n h) ≡ header_size
length-pack_header n h = refl

parse_header-pack_header :
    (n : ℕ) (h : Header) → HeaderFits h → parse_header (pack_header n h) ≡ ok h
unfolding parse_header
parse_header-pack_header n h fit = ground arith

-- The header that the packer writes is read back as it was, from any file that begins with it.
pub read_header-pack_header :
    (f : ReaderAt) (n : ℕ) (h : Header) (rest : Bytes)
    → Holds f (pack_header n h ++ rest)
    → HeaderFits h
    → read_header f ≡ ok h
unfolding read_header
read_header-pack_header f n h rest holds fit =
    rw (holds.reads 0 header_size (omega (arith, length-append (pack_header n h) rest)), read)
      (ap parse_header (take-prefix (pack_header n h) rest header_size refl)
        ∙ parse_header-pack_header n h fit)
