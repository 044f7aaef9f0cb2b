-- ===== src/ImageFile/Geometry.antt =====
-- The CHS geometry that `hdf_write_header` of src/image_file.c makes up for a sector count.
use native.Mathlib.Nat.{div-add-mod'}
use hdfmonkey.Base.{
  ℕ, zero, suc, ◌*◌, ◌/◌, ◌%◌, ◌≤◌, ◌<◌, ◌≡◌, refl, inl, inr, Bool-cases, arith, ltb, leb, ◌==◌,
  if◌then◌else◌, ==_iff, ltb→lt, ltb_false→le, false,
}

pub record Geometry : Type 0 where
  pub cyl_count : ℕ
  pub head_count : ℕ
  pub sectors_per_track : ℕ

-- `for (c = start; c > 1; c--) if (n % c == 0) break;`, the value of `c` after the loop.
largest_factor : ℕ → ℕ → ℕ
largest_factor zero n = zero
largest_factor (suc zero) n = suc zero
largest_factor (suc (suc c)) n =
    let rest = largest_factor (suc c) n in if n % suc (suc c) == 0 then suc (suc c) else rest

-- The dummy values of a large disk.
abbrev pub large_disk : Geometry
large_disk = record { cyl_count = 16383; head_count = 16; sectors_per_track = 63 }

factor_geometry : ℕ → Geometry
factor_geometry sector_count =
    let head_count = largest_factor 16 sector_count in
    let sectors_per_head = sector_count / head_count in
    let sectors_per_track = largest_factor 63 sectors_per_head in
    let cyl_count = sectors_per_head / sectors_per_track in
    if ltb 16384 cyl_count then large_disk else record {
      cyl_count = cyl_count;
      head_count = head_count;
      sectors_per_track = sectors_per_track;
    }

unfoldable pub geometry : ℕ → Geometry
unfolding factor_geometry largest_factor
geometry sector_count =
    if leb (16383 * 16 * 63) sector_count then large_disk else factor_geometry sector_count

-- The loop stops at a factor in range, which is the greatest one.
pub record IsLargestFactor (start n c : ℕ) : Type 0 where
  pub positive : 0 < c
  pub bounded : c ≤ start
  pub divides : n % c ≡ 0
  pub greatest : (d : ℕ) → 0 < d → d ≤ start → n % d ≡ 0 → d ≤ c

-- What divides `n` is not the bound itself if that does not.
below_bound : (n d m : ℕ) → d ≤ suc m → n % d ≡ 0 → (n % suc m == 0) ≡ false → d ≤ m
below_bound n d m b e f = elim (Bool-cases (d == suc m)) [
  | inl same ↦
      let e' : d ≡ suc m = (==_iff _ _).0 same in
      let e'' : n % suc m ≡ 0 = rw e' at e in ground arith
  | inr apart ↦ ground arith
]

largest_factor-IsLargestFactor :
    (start n : ℕ) → 0 < start → IsLargestFactor start n (largest_factor start n)
unfolding largest_factor
largest_factor-IsLargestFactor zero n h = absurd (omega arith)
largest_factor-IsLargestFactor (suc zero) n h = record {
  positive = omega arith;
  bounded = omega arith;
  divides = omega arith;
  greatest = λ d p b e. b;
}
largest_factor-IsLargestFactor (suc (suc c)) n h = elim (Bool-cases (n % suc (suc c) == 0)) [
  | inl found ↦ rw found (record {
    positive = omega arith;
    bounded = omega arith;
    divides = (==_iff _ _).0 found;
    greatest = λ d p b e. b;
  })
  | inr more ↦ rw more (
      let ih = largest_factor-IsLargestFactor (suc c) n (omega arith) in
      record {
        positive = ih.positive;
        bounded = omega (arith, ih.bounded);
        divides = ih.divides;
        greatest = λ d p b e. ih.greatest d p (below_bound n d (suc c) b e more) e;
      })
]

-- How a geometry stands to its sector count: the dummy of a disk above 8GB, the two largest factors
-- and what they leave, or the dummy again where they leave too many cylinders.
pub data Fits (n : ℕ) (g : Geometry) : Type 0 where
  large : 16383 * 16 * 63 ≤ n → g ≡ large_disk → Fits n g
  factored :
      n < 16383 * 16 * 63
      → IsLargestFactor 16 n g.head_count
      → IsLargestFactor 63 (n / g.head_count) g.sectors_per_track
      → g.cyl_count ≤ 16384
      → g.cyl_count * g.sectors_per_track * g.head_count ≡ n
      → Fits n g
  dismal :
      (heads sectors : ℕ)
      → n < 16383 * 16 * 63
      → IsLargestFactor 16 n heads
      → IsLargestFactor 63 (n / heads) sectors
      → 16384 < n / heads / sectors
      → g ≡ large_disk
      → Fits n g

mul_div_of_mod : (n d : ℕ) → n % d ≡ 0 → n / d * d ≡ n
mul_div_of_mod n d e = omega (arith, div-add-mod' n d)

factor_geometry-Fits : (n : ℕ) → n < 16383 * 16 * 63 → Fits n (factor_geometry n)
unfolding factor_geometry
factor_geometry-Fits n small =
    let heads = largest_factor 16 n in
    let sectors = largest_factor 63 (n / heads) in
    let h : IsLargestFactor 16 n heads = largest_factor-IsLargestFactor 16 n (omega arith) in
    let t : IsLargestFactor 63 (n / heads) sectors =
      largest_factor-IsLargestFactor 63 (n / heads) (omega arith) in
    elim (Bool-cases (ltb 16384 (n / heads / sectors))) [
      | inl many ↦ rw many (dismal heads sectors small h t (ltb→lt _ _ many) refl)
      | inr few ↦ rw few (
          factored small h t (ltb_false→le _ _ few)
            (rw (mul_div_of_mod (n / heads) sectors t.divides) (mul_div_of_mod n heads h.divides)))
    ]

-- For every sector count the geometry is that of a large disk at 16383 * 16 * 63 sectors or more.
-- Below, its heads are the largest factor up to 16, its sectors per track the largest factor up to
-- 63 of what is left, and the product of the three is the sector count; only if that leaves more
-- than 16384 cylinders it is that of a large disk again.
pub geometry-Fits : (n : ℕ) → Fits n (geometry n)
unfolding geometry
geometry-Fits n = elim (Bool-cases (leb (16383 * 16 * 63) n)) [
  | inl big ↦ rw big (large (ground arith) refl)
  | inr small ↦ rw small (factor_geometry-Fits n (ground arith))
]

-- Every geometry has 1 to 16 heads, 1 to 63 sectors per track and at most 16384 cylinders.
pub geometry_bounds :
    (n : ℕ)
    → let g = geometry n in
      (0 < g.head_count)
      × (g.head_count ≤ 16)
      × (0 < g.sectors_per_track)
      × (g.sectors_per_track ≤ 63)
      × (g.cyl_count ≤ 16384)
geometry_bounds n = bounds (geometry n) (geometry-Fits n)
  where
    bounds :
        (g : Geometry)
        → Fits n g
        → (0 < g.head_count)
          × (g.head_count ≤ 16)
          × (0 < g.sectors_per_track)
          × (g.sectors_per_track ≤ 63)
          × (g.cyl_count ≤ 16384)
    bounds g (large _ e) = rw e (omega arith)
    bounds g (factored _ h t c _) = (h.positive, h.bounded, t.positive, t.bounded, c)
    bounds g (dismal _ _ _ _ _ _ e) = rw e (omega arith)
