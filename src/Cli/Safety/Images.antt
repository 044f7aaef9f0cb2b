-- ===== src/Cli/Safety/Images.antt =====
-- What the commands of src/hdfmonkey.c do with an image that is opened or made does not fault.
use hdfmonkey.Base.{
  ℕ, zero, suc, ◌≤◌, ◌<◌, ◌≡◌, refl, ◌∙◌, List, [], ◌∷◌, Bool, true, Option, none, some, get_elem?,
  length, ℤ, minus_one, pure, ◌>>=◌, ◌>>◌, arith,
}
use hdfmonkey.Base.Safety.{holds, bind_safe}
use hdfmonkey.Posix.{Posix, CString}
use hdfmonkey.Volume.{Volume}
use hdfmonkey.ImageFile.Safety.{is_image, volume_close_safe}
use hdfmonkey.Machine.{Machine}
use hdfmonkey.FatFs.{FatFs}
use hdfmonkey.Libc.{Libc}
use hdfmonkey.Cli.Support.{MainCmd, open_image, create_image, close_volume}
use hdfmonkey.Cli.Options.{no_options, parse_options}
use hdfmonkey.Cli.Options.Laws.{parse_options-IsCollected, plain}
use hdfmonkey.Cli.Safety.{
  KeepsDrives, in_order, keeps, gives_image, open_image_safe, create_image_safe,
}

elem_of : (xs : List CString) (i : ℕ) → i < length xs → (a : CString) × (get_elem? xs i ≡ some a)
elem_of [] i h = absurd (omega arith)
elem_of (x ∷ xs) zero h = (x, refl)
elem_of (x ∷ xs) (suc i) h = elem_of xs i (omega arith)

-- Enough arguments were given.
pub first_given :
    (args : List CString)
    → 0 < (parse_options args no_options).arg_num
    → (a : CString) × ((parse_options args no_options).arg_0 ≡ some a)
first_given args h =
    let c = parse_options-IsCollected args in
    let (a, e) = elem_of (plain args) 0 (omega (arith, c.count)) in (a, c.first ∙ e)

pub second_given :
    (args : List CString)
    → 1 < (parse_options args no_options).arg_num
    → (a : CString) × ((parse_options args no_options).arg_1 ≡ some a)
second_given args h =
    let c = parse_options-IsCollected args in
    let (a, e) = elem_of (plain args) 1 (omega (arith, c.count)) in (a, c.second ∙ e)

module _ {P : Posix} (T : Libc P) (F : FatFs P) (K : KeepsDrives F) where
  -- What is done with an image, or without it.
  image_cases :
      (r : Option Volume) (failed : MainCmd T F ℤ) (next : Volume → MainCmd T F ℤ)
      (m : Machine P.World F.State)
      → gives_image F r m ≡ true
      → (in_order F m ≡ true → holds (keeps F) (failed m) ≡ true)
      → ((v : Volume) → is_image v ≡ true → in_order F m ≡ true → holds (keeps F) (next v m) ≡ true)
      → holds (keeps F) ((elim r as (λ r. MainCmd T F ℤ) [ none ↦ failed | some v ↦ next v ]) m)
        ≡ true
  image_cases none failed next m g without after = without g
  image_cases (some v) failed next m g without after = after v (ground arith) (ground arith)

  pub with_image_safe :
      (path : CString) (mounting b : Bool) (next : Volume → MainCmd T F ℤ)
      (m : Machine P.World F.State)
      → in_order F m ≡ true
      → ((v : Volume) (m1 : Machine P.World F.State)
          → is_image v ≡ true
          → in_order F m1 ≡ true
          → holds (keeps F) (next v m1) ≡ true)
      → holds (keeps F) (
          (open_image T F path mounting b >>= λ r. elim r [
            | none ↦ pure minus_one
            | some v ↦ next v
          ])
            m)
        ≡ true
  with_image_safe path mounting b next m h after =
      bind_safe (gives_image F) (keeps F) (open_image T F path mounting b m) _
        (open_image_safe T F K path mounting b m h)
        λ r m1 g. image_cases r (pure minus_one) next m1 g (λ k. k) λ v i k. after v m1 i k

  pub with_new_image_safe :
      (path : CString) (n : ℕ) (failed : MainCmd T F ℤ) (next : Volume → MainCmd T F ℤ)
      (m : Machine P.World F.State)
      → 3 ≤ length path
      → in_order F m ≡ true
      → ((m1 : Machine P.World F.State) → in_order F m1 ≡ true → holds (keeps F) (failed m1) ≡ true)
      → ((v : Volume) (m1 : Machine P.World F.State)
          → is_image v ≡ true
          → in_order F m1 ≡ true
          → holds (keeps F) (next v m1) ≡ true)
      → holds
          (keeps F)
          ((create_image T F path n >>= λ r. elim r [ none ↦ failed | some v ↦ next v ]) m)
        ≡ true
  with_new_image_safe path n failed next m long h without after =
      bind_safe (gives_image F) (keeps F) (create_image T F path n m) _
        (create_image_safe T F path n m long h)
        λ r m1 g. image_cases r failed next m1 g (without m1) λ v i k. after v m1 i k

  -- `v->close(v); return -1;`
  pub give_up_safe :
      (v : Volume) (m : Machine P.World F.State)
      → is_image v ≡ true
      → in_order F m ≡ true
      → holds (keeps F) ((close_volume T F v >> pure minus_one) m) ≡ true
  give_up_safe v m i h = ground (arith, volume_close_safe P v m.world i)
