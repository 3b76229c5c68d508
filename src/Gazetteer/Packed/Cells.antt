-- ===== src/Gazetteer/Packed/Cells.antt =====
-- server/internal/gazetteer/gazetteer.go: `readUint64At` and the reads like it find the cells of a
-- packed dataset.
use mathlib.Core.List.{append_assoc, append-nil}
use check_in.Prelude.{
  ℕ, zero, suc, ◌+◌, ◌*◌, ◌<◌, ◌^◌, ◌≤◌, ◌≡◌, refl, ap, ◌∙◌, sym, subst, List, [], ◌∷◌, ◌++◌,
  length, take, arith, ok, some, get_elem?, length-append,
}
use check_in.Slice.{Bytes, drop-append_right}
use check_in.Sorting.{All}
use check_in.Gazetteer.{
  ReaderAt, Table, header_size, cell, read, read_uint64_at, read_uint32_at, read_int32_at,
  read_flag_at, read_header,
}
use check_in.Gazetteer.Packed.{
  Row, Entry, le_bytes, column, word32, pack_header, header_of, packed, Holds, IsDataset, RowFits,
  EntryFits,
}
use check_in.Gazetteer.Packed.Columns.{
  little_endian-le_bytes, length-column, column-get_elem?, signed32-word32, word32-lt,
}
use check_in.Gazetteer.Packed.Preamble.{HeaderFits, read_header-pack_header}

pub get_elem?_lt {ℓ} :
    {A : Type ℓ} (xs : List A) (i : ℕ) (x : A) → get_elem? xs i ≡ some x → i < length xs
get_elem?_lt [] i x e = absurd (ground (arith, e))
get_elem?_lt (y ∷ xs) zero x e = omega arith
get_elem?_lt (y ∷ xs) (suc i) x e = omega (arith, get_elem?_lt xs i x e)

pub All-get_elem? {ℓ κ} :
    {A : Type ℓ} (P : A → Type κ) (xs : List A) (i : ℕ) (x : A)
    → All P xs
    → get_elem? xs i ≡ some x
    → P x
All-get_elem? P [] i x a e = absurd (ground (arith, e))
All-get_elem? P (y ∷ xs) zero x a e = let same : y ≡ x = ground (arith, e) in subst P same a.0
All-get_elem? P (y ∷ xs) (suc i) x a e = All-get_elem? P xs i x a.1 e

cell_bound : (i n k : ℕ) → i < k → i * n + n ≤ n * k
cell_bound i n k h = grind arith

module _ {ℓ} {A : Type ℓ} (f : ReaderAt) (n : ℕ) (field : A → ℕ) (xs : List A)
    (pre rest : Bytes) where
  read-column :
      (i : ℕ) (x : A) (at : ℕ)
      → Holds f (pre ++ (column n field xs ++ rest))
      → get_elem? xs i ≡ some x
      → at ≡ length pre
      → length pre + n * length xs < 2 ^ 64
      → read f (cell at i n) n ≡ ok (le_bytes n (field x))
  unfolding read
  read-column i x at holds e here fits =
      let place : cell at i n ≡ length pre + i * n =
        omega (arith, here, cell_bound i n (length xs) (get_elem?_lt xs i x e)) in
      let bytes : f.read_at (length pre + i * n) n ≡ some (le_bytes n (field x)) =
        holds.reads (length pre + i * n) n (
          omega (
            arith,
            cell_bound i n (length xs) (get_elem?_lt xs i x e),
            length-append pre (column n field xs ++ rest),
            length-append (column n field xs) rest,
            length-column n field xs,
          ))
        ∙ ap some (
            ap (take n)
              (drop-append_right pre (column n field xs ++ rest) (length pre + i * n) (i * n) refl)
            ∙ column-get_elem? n field xs i x rest e) in
      rw place (rw (bytes, read) refl)

module _ (f : ReaderAt) (rows : List Row) (entries : List Entry) (dataset : IsDataset rows entries)
    (holds : Holds f (packed rows entries)) where
  abbrev pub table : Table
  table = record { f = f; h = header_of (length rows) (length entries) }

  abbrev lat_word : Entry → ℕ
  lat_word e = word32 e.lat

  abbrev lng_word : Entry → ℕ
  lng_word e = word32 e.lng

  abbrev population_word : Entry → ℕ
  population_word e = word32 e.population

  abbrev c1 : Bytes
  c1 = column 8 (λ r. r.hash) rows

  abbrev c2 : Bytes
  c2 = column 4 (λ r. r.entry) rows

  abbrev c3 : Bytes
  c3 = column 1 (λ r. r.flag) rows

  abbrev c4 : Bytes
  c4 = column 4 lat_word entries

  abbrev c5 : Bytes
  c5 = column 4 lng_word entries

  abbrev c6 : Bytes
  c6 = column 4 population_word entries

  abbrev head : Bytes
  head = pack_header (length entries) (header_of (length rows) (length entries))

  holds1 : Holds f (head ++ (c1 ++ (c2 ++ (c3 ++ (c4 ++ (c5 ++ c6))))))
  unfolding packed
  holds1 = holds

  header_of-HeaderFits : HeaderFits (header_of (length rows) (length entries))
  unfolding header_of
  header_of-HeaderFits = omega (arith, dataset.few_rows, dataset.few_entries)

  -- The header that the packer wrote.
  pub read_header-packed : read_header f ≡ ok table.h
  read_header-packed =
      read_header-pack_header f (length entries) (header_of (length rows) (length entries))
        (c1 ++ (c2 ++ (c3 ++ (c4 ++ (c5 ++ c6))))) holds1 header_of-HeaderFits

  holds2 : Holds f ((head ++ c1) ++ (c2 ++ (c3 ++ (c4 ++ (c5 ++ c6)))))
  holds2 = subst (Holds f) (sym (append_assoc head c1 (c2 ++ (c3 ++ (c4 ++ (c5 ++ c6)))))) holds1

  holds3 : Holds f (((head ++ c1) ++ c2) ++ (c3 ++ (c4 ++ (c5 ++ c6))))
  holds3 = subst (Holds f) (sym (append_assoc (head ++ c1) c2 (c3 ++ (c4 ++ (c5 ++ c6))))) holds2

  holds4 : Holds f ((((head ++ c1) ++ c2) ++ c3) ++ (c4 ++ (c5 ++ c6)))
  holds4 = subst (Holds f) (sym (append_assoc ((head ++ c1) ++ c2) c3 (c4 ++ (c5 ++ c6)))) holds3

  holds5 : Holds f (((((head ++ c1) ++ c2) ++ c3) ++ c4) ++ (c5 ++ c6))
  holds5 = subst (Holds f) (sym (append_assoc (((head ++ c1) ++ c2) ++ c3) c4 (c5 ++ c6))) holds4

  holds6 : Holds f ((((((head ++ c1) ++ c2) ++ c3) ++ c4) ++ c5) ++ (c6 ++ []))
  holds6 =
      subst (λ z. Holds f ((((((head ++ c1) ++ c2) ++ c3) ++ c4) ++ c5) ++ z)) (sym (append-nil c6))
        (subst (Holds f) (sym (append_assoc ((((head ++ c1) ++ c2) ++ c3) ++ c4) c5 c6)) holds5)

  at2 : length (head ++ c1) ≡ header_size + 8 * length rows
  at2 = omega (arith, length-append head c1, length-column 8 (λ (r : Row). r.hash) rows)

  at3 : length ((head ++ c1) ++ c2) ≡ header_size + 8 * length rows + 4 * length rows
  at3 =
      omega (arith, at2, length-append (head ++ c1) c2, length-column 4 (λ (r : Row). r.entry) rows)

  at4 :
      length (((head ++ c1) ++ c2) ++ c3)
      ≡ header_size + 8 * length rows + 4 * length rows + length rows
  at4 = omega (
    arith,
    at3,
    length-append ((head ++ c1) ++ c2) c3,
    length-column 1 (λ (r : Row). r.flag) rows,
  )

  at5 :
      length ((((head ++ c1) ++ c2) ++ c3) ++ c4)
      ≡ header_size + 8 * length rows + 4 * length rows + length rows + 4 * length entries
  at5 =
      omega (
        arith,
        at4,
        length-append (((head ++ c1) ++ c2) ++ c3) c4,
        length-column 4 lat_word entries,
      )

  at6 :
      length (((((head ++ c1) ++ c2) ++ c3) ++ c4) ++ c5)
      ≡ header_size
        + 8 * length rows
        + 4 * length rows
        + length rows
        + 4 * length entries
        + 4 * length entries
  at6 = omega (
    arith,
    at5,
    length-append ((((head ++ c1) ++ c2) ++ c3) ++ c4) c5,
    length-column 4 lng_word entries,
  )

  module _ (i : ℕ) (r : Row) (e : get_elem? rows i ≡ some r) where
    row_fits : RowFits (length entries) r
    row_fits = All-get_elem? (RowFits (length entries)) rows i r dataset.rows_fit e

    pub hash_at : read_uint64_at table table.h.hashes_offset i ≡ ok r.hash
    unfolding read_uint64_at header_of
    hash_at =
        rw
          (
            read-column f 8 (λ q. q.hash) rows head (c2 ++ (c3 ++ (c4 ++ (c5 ++ c6)))) i r
                header_size holds1 e refl (omega (arith, dataset.few_rows)),
            little_endian-le_bytes 8 r.hash (omega (arith, row_fits)),
          )
          refl

    pub entry_at : read_uint32_at table table.h.entry_indices_offset i ≡ ok r.entry
    unfolding read_uint32_at header_of
    entry_at =
        rw
          (
            read-column f 4 (λ q. q.entry) rows (head ++ c1) (c3 ++ (c4 ++ (c5 ++ c6))) i r
                (header_size + 8 * length rows) holds2 e (sym at2)
                (omega (arith, dataset.few_rows, at2)),
            little_endian-le_bytes 4 r.entry (omega (arith, row_fits, dataset.few_entries)),
          )
          refl

    pub flag_at : read_flag_at table i ≡ ok r.flag
    unfolding read_flag_at header_of
    flag_at =
        rw
          (read-column f 1 (λ q. q.flag) rows ((head ++ c1) ++ c2) (c4 ++ (c5 ++ c6)) i r
            (header_size + 8 * length rows + 4 * length rows) holds3 e (sym at3)
            (omega (arith, dataset.few_rows, at3)))
          (ap (λ b. ok b) (omega (arith, row_fits)))

  module _ (i : ℕ) (x : Entry) (e : get_elem? entries i ≡ some x) where
    place_fits : EntryFits x
    place_fits = All-get_elem? EntryFits entries i x dataset.entries_fit e

    pub lat_at : read_int32_at table table.h.lat_offset i ≡ ok x.lat
    unfolding read_int32_at read_uint32_at header_of
    lat_at =
        rw
          (
            read-column f 4 lat_word entries (((head ++ c1) ++ c2) ++ c3) (c5 ++ c6) i x
                (header_size + 8 * length rows + 4 * length rows + length rows) holds4 e (sym at4)
                (omega (arith, dataset.few_rows, dataset.few_entries, at4)),
            little_endian-le_bytes 4 (word32 x.lat) (omega (arith, word32-lt x.lat place_fits.0)),
            signed32-word32 x.lat place_fits.0,
          )
          refl

    pub lng_at : read_int32_at table table.h.lng_offset i ≡ ok x.lng
    unfolding read_int32_at read_uint32_at header_of
    lng_at =
        rw
          (
            read-column f 4 lng_word entries ((((head ++ c1) ++ c2) ++ c3) ++ c4) c6 i x
                (header_size + 8 * length rows + 4 * length rows + length rows + 4 * length entries)
                holds5 e (sym at5) (omega (arith, dataset.few_rows, dataset.few_entries, at5)),
            little_endian-le_bytes 4 (word32 x.lng) (omega (arith, word32-lt x.lng place_fits.1)),
            signed32-word32 x.lng place_fits.1,
          )
          refl

    pub population_at : read_int32_at table table.h.population_offset i ≡ ok x.population
    unfolding read_int32_at read_uint32_at header_of
    population_at =
        rw
          (
            read-column f 4 population_word entries (((((head ++ c1) ++ c2) ++ c3) ++ c4) ++ c5) []
                i x
                (header_size
                  + 8 * length rows
                  + 4 * length rows
                  + length rows
                  + 4 * length entries
                  + 4 * length entries)
                holds6 e (sym at6) (omega (arith, dataset.few_rows, dataset.few_entries, at6)),
            little_endian-le_bytes 4 (word32 x.population)
                (omega (arith, word32-lt x.population place_fits.2)),
            signed32-word32 x.population place_fits.2,
          )
          refl
