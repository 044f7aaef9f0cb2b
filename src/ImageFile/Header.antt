-- ===== src/ImageFile/Header.antt =====
-- The bytes of an HDF header: what `hdf_write_header` of src/image_file.c builds in its buffer.
use hdfmonkey.Base.{
  ℕ, zero, suc, ◌+◌, ◌*◌, ◌/◌, ◌%◌, ◌^◌, ◌≡◌, refl, List, [], ◌∷◌, arith, length, get_or, set, take,
  replicate,
}
use hdfmonkey.Base.Slices.{slice, splice}
use hdfmonkey.ImageFile.Geometry.{Geometry, geometry, geometry_bounds}

-- "RS-IDE\x1a"
abbrev pub hdf_signature : List ℕ
hdf_signature = b'R' ∷ b'S' ∷ b'-' ∷ b'I' ∷ b'D' ∷ b'E' ∷ 0x1a ∷ []

-- Version 1.1, sector data not halved, data offset 0x216.
abbrev pub hdf_preamble : List ℕ
hdf_preamble = b'R' ∷ b'S' ∷ b'-' ∷ b'I' ∷ b'D' ∷ b'E' ∷ 0x1a ∷ 0x11 ∷ 0x00 ∷ 0x16 ∷ 0x02 ∷ []

abbrev pub hdf_header_size : ℕ
hdf_header_size = 0x0216

-- "rCaeet dybh fdomknye", and 20 spaces.
abbrev pub model_number : List ℕ
model_number =
    b'r'
    ∷ b'C'
    ∷ b'a'
    ∷ b'e'
    ∷ b'e'
    ∷ b't'
    ∷ 32
    ∷ b'd'
    ∷ b'y'
    ∷ b'b'
    ∷ b'h'
    ∷ 32
    ∷ b'f'
    ∷ b'd'
    ∷ b'o'
    ∷ b'm'
    ∷ b'k'
    ∷ b'n'
    ∷ b'y'
    ∷ b'e'
    ∷ replicate 20 32

-- The stores into `identity`, which is `header + 0x16`; a store into a `char` keeps eight bits.
fill_identity : Geometry → ℕ → List ℕ → List ℕ
fill_identity g sector_count header =
    let cylinders_low = set header (0x16 + 2) (g.cyl_count % 256) in
    let cylinders = set cylinders_low (0x16 + 3) (g.cyl_count / 2 ^ 8 % 256) in
    let heads = set cylinders (0x16 + 6) (g.head_count % 256) in
    let sectors = set heads (0x16 + 12) (g.sectors_per_track % 256) in
    let model = splice (0x16 + 54) model_number sectors in
    let capabilities = set model (0x16 + 99) 0x02 in
    let total_0 = set capabilities (0x16 + 120) (sector_count % 256) in
    let total_1 = set total_0 (0x16 + 121) (sector_count / 2 ^ 8 % 256) in
    let total_2 = set total_1 (0x16 + 122) (sector_count / 2 ^ 16 % 256) in
    set total_2 (0x16 + 123) (sector_count / 2 ^ 24 % 256)

-- The buffer that is written to the file.
unfoldable pub header_bytes : ℕ → List ℕ
unfolding fill_identity splice
header_bytes sector_count =
    fill_identity (geometry sector_count) sector_count
      (splice 0 hdf_preamble (replicate hdf_header_size 0))

-- A number of `k` bytes from position `i` on, the lowest first.
abbrev pub little_endian : ℕ → ℕ → List ℕ → ℕ
little_endian zero i bytes = 0
little_endian (suc k) i bytes = get_or bytes i 0 + 256 * little_endian k (suc i) bytes

-- What a reader of an HDF file finds in a header: the fields of the format.
pub record Describes (bytes : List ℕ) (g : Geometry) (sector_count : ℕ) : Type 0 where
  pub size : length bytes ≡ hdf_header_size
  pub preamble : take 11 bytes ≡ hdf_preamble
  pub cylinders : little_endian 2 (0x16 + 2) bytes ≡ g.cyl_count
  pub heads : get_or bytes (0x16 + 6) 0 ≡ g.head_count
  pub sectors : get_or bytes (0x16 + 12) 0 ≡ g.sectors_per_track
  pub model : slice (0x16 + 54) 40 bytes ≡ model_number
  pub lba : get_or bytes (0x16 + 99) 0 ≡ 0x02
  pub total : little_endian 4 (0x16 + 120) bytes ≡ sector_count % 2 ^ 32

-- A header has 0x216 bytes, the preamble, the geometry of the sector count in its fields, the model
-- number, the LBA flag, and the low 32 bits of the sector count, little-endian.
pub header_bytes-Describes : (n : ℕ) → Describes (header_bytes n) (geometry n) n
unfolding header_bytes slice
header_bytes-Describes n =
    let b = geometry_bounds n in
    record {
      size = refl;
      preamble = refl;
      cylinders = omega arith;
      heads = omega arith;
      sectors = omega arith;
      model = refl;
      lba = refl;
      total = omega arith;
    }
