-- ===== src/Storage/Mp4/Strip.antt =====
-- server/internal/storage/mp4.go: stripLocationMetadata and what it calls.
pub mod Safe
pub mod Audit
pub mod Clean
mod Tests
use check_in.Prelude.{
  NoError, ℕ, zero, suc, ◌+◌, ◌-◌, Bool, true, false, ◌&&◌, ◌||◌, Option, none, some, List, [], ◌∷◌,
  ltb, ◌==◌, if◌then◌else◌, length, Result, ok, ◌>>=◌, comparable_nat,
}
use check_in.Slice.{Bytes, clear, bytes_eq}
use check_in.Storage.Mp4.{
  Box, clear_window, max_box_depth, max_box_siblings, ascii, member, mp4_containers, privacy_boxes,
  privacy_key_tokens, big_endian, window, parse_boxes, parse_indexed_boxes, find_box,
  looks_like_box_header,
}

-- `strings.Contains`
abbrev pub starts : Bytes → Bytes → Bool
starts xs [] = true
starts [] (y ∷ ys) = false
starts (x ∷ xs) (y ∷ ys) = x == y && starts xs ys

pub contains : Bytes → Bytes → Bool
contains [] sub = starts [] sub
contains (x ∷ xs) sub = starts (x ∷ xs) sub || contains xs sub

pub contains_any : Bytes → List Bytes → Bool
unfolding contains
contains_any key [] = false
contains_any key (token ∷ tokens) = contains key token || contains_any key tokens

-- the data boxes of an entry: all but the type indicator and the locale
pub blank_data : Bytes → List Box → Result NoError Bytes
blank_data d [] = ok d
blank_data d (k ∷ ks) = do
  d' ←
      if bytes_eq k.typ (ascii "data") && ltb (k.start + 8) k.stop
      then clear_window d (k.start + 8) k.stop
      else ok d
  blank_data d' ks

pub blank_ilst_value : Bytes → Box → Result NoError Bytes
unfolding blank_data
blank_ilst_value d entry = do
  (kids, whole) ← parse_boxes d entry.start entry.stop
  blank_data d kids

-- the loop of `metadataKeys`: `count` entries at most, from `p` on
pub read_keys : ℕ → Bytes → ℕ → ℕ → Result NoError (List Bytes)
read_keys zero d hi p = ok []
read_keys (suc count) d hi p = if ltb hi (p + 8) then ok [] else do
  word ← window d hi p (p + 4)
  let size = big_endian 0 word
  let entry = do
    key ← window d hi (p + 8) (p + size)
    keys ← read_keys count d hi (p + size)
    ok (key ∷ keys)
  if ltb size 8 || ltb hi (p + size) then ok [] else entry

keys_of : Bytes → Option Box → Result NoError (List Bytes)
unfolding read_keys
keys_of d none = ok []
keys_of d (some keys) = if ltb keys.stop (keys.start + 8) then ok [] else do
  word ← window d keys.stop (keys.start + 4) (keys.start + 8)
  let count = big_endian 0 word
  let entries = read_keys count d keys.stop (keys.start + 8)
  if ltb max_box_siblings count then ok [] else entries

pub metadata_keys : Bytes → List Box → Result NoError (List Bytes)
unfolding keys_of
metadata_keys d kids = keys_of d (find_box kids (ascii "keys"))

-- The children of a meta box, from the first place to the second.
pub meta_children : Bytes → ℕ → ℕ → Result NoError (ℕ × ℕ)
meta_children d lo hi = do
  plain ← looks_like_box_header d lo hi
  let full = do
    behind ← looks_like_box_header d (lo + 4) hi
    ok (if behind then (lo + 4, hi) else (hi, hi))
  if plain then ok (lo, hi) else if ltb hi (lo + 4) then ok (hi, hi) else full

-- `keys[index-1]`, or no name
abbrev pub key_name : List Bytes → ℕ → Bytes
key_name keys zero = []
key_name [] (suc i) = []
key_name (k ∷ keys) (suc zero) = k
key_name (k ∷ keys) (suc (suc i)) = key_name keys (suc i)

module _ (to_lower : Bytes → Bytes) where
  pub privacy_key : Bytes → Bool
  unfolding contains_any
  privacy_key [] = false
  privacy_key (c ∷ cs) = contains_any (to_lower (c ∷ cs)) privacy_key_tokens

  pub blank_entries : Bytes → List Bytes → List Box → Result NoError Bytes
  unfolding privacy_key blank_ilst_value
  blank_entries d keys [] = ok d
  blank_entries d keys (e ∷ es) = do
    d' ←
        if privacy_key (key_name keys (big_endian 0 e.typ)) || member privacy_boxes e.typ
        then blank_ilst_value d e
        else ok d
    blank_entries d' keys es

  blank_ilst : Bytes → List Bytes → Option Box → Result NoError Bytes
  unfolding blank_entries
  blank_ilst d keys none = ok d
  blank_ilst d keys (some ilst) = do
    (entries, whole) ← parse_indexed_boxes d ilst.start ilst.stop
    blank_entries d keys entries

  pub strip_meta_box : Bytes → ℕ → ℕ → Result NoError Bytes
  unfolding blank_ilst
  strip_meta_box d lo hi = do
    (from, until) ← meta_children d lo hi
    (kids, whole) ← parse_boxes d from until
    keys ← metadata_keys d kids
    blank_ilst d keys (find_box kids (ascii "ilst"))

  -- One box; `strip_kids` is `stripBoxes` one level down.
  pub strip_box : (Bytes → List Box → Result NoError Bytes) → Bytes → Box → Result NoError Bytes
  unfolding strip_meta_box
  strip_box strip_kids d b =
      if member privacy_boxes b.typ
      then clear_window d b.start b.stop
      else if bytes_eq b.typ (ascii "meta")
      then strip_meta_box d b.start b.stop
      else if member mp4_containers b.typ
      then (parse_boxes d b.start b.stop >>= λ (kids, whole). strip_kids d kids)
      else ok d

  pub strip_each :
      (Bytes → List Box → Result NoError Bytes) → Bytes → List Box → Result NoError Bytes
  unfolding strip_box
  strip_each strip_kids d [] = ok d
  strip_each strip_kids d (b ∷ bs) = do d' ← strip_box strip_kids d b; strip_each strip_kids d' bs

  -- The first argument is `maxBoxDepth - depth`.
  pub strip_boxes : ℕ → Bytes → List Box → Result NoError Bytes
  unfolding strip_each
  strip_boxes zero d boxes = ok d
  strip_boxes (suc levels) d boxes = strip_each (strip_boxes levels) d boxes

  pub strip_location_metadata : Bytes → Result NoError Bytes
  unfolding strip_boxes
  strip_location_metadata d = do
    (boxes, whole) ← parse_boxes d 0 (length d)
    strip_boxes max_box_depth d boxes
