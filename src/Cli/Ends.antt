-- ===== src/Cli/Ends.antt =====
-- The commands of src/hdfmonkey.c that go through no directory and no file on an image end by
-- themselves, whatever fails.
pub mod Main
use hdfmonkey.Base.{
  ℕ, zero, suc, ◌+◌, ◌-◌, ◌*◌, ◌%◌, ◌≤◌, ◌<◌, ◌^◌, ◌≡◌, refl, List, Bool, true, false, ◌||◌, Option,
  none, some, ltb, leb, if◌then◌else◌, length, drop, get_elem?, ℤ, pos, negsuc, is_negative,
  minus_one, word_modulus, text, pure, ◌>>=◌, ◌>>◌, fault, arith, Cmd, Bool-cases, Option-cases,
  inl, inr,
}
use hdfmonkey.Base.Safety.{holds}
use hdfmonkey.Base.Ends.{ends, whatever, bind_ends, returns}
use hdfmonkey.Posix.{Posix, CString, Progresses}
use hdfmonkey.Volume.{Volume, image_file, partition, sector_count, bytes_per_sector}
use hdfmonkey.Volume.Dispatch.{volume_read, volume_write}
use hdfmonkey.ImageFile.Ends.{
  fits, volume_read_ends, volume_write_ends, volume_close_ends, hdf_image_create_ends,
  raw_image_create_ends, hdf_image_open_ends, raw_image_open_ends, image_file_is_hdf_ends,
}
use hdfmonkey.ImageFile.Images.{hdf_image_open, raw_image_open}
use hdfmonkey.Machine.{Machine, lift}
use hdfmonkey.Diskio.{disk_map}
use hdfmonkey.FatFs.{FatFs, FResult, Format}
use hdfmonkey.Libc.{Libc}
use hdfmonkey.Cli.Support.{
  MainCmd, success, fat_perror, mount_image, open_image, create_image, close_volume, is_ok,
}
use hdfmonkey.Cli.Clone.{clone_loop, clone_volume, chunk_size, finish, cmd_clone}

module _ {P : Posix} (T : Libc P) (F : FatFs P) where
  pub close_volume_ends :
      (v : Volume) (m : Machine P.World F.State) → ends whatever (close_volume T F v m) ≡ true
  close_volume_ends v m = ground (arith, volume_close_ends P v m.world)

  pub fat_perror_ends :
      (message : CString) (r : FResult) (m : Machine P.World F.State)
      → ends whatever (fat_perror T F message r m) ≡ true
  unfolding fat_perror
  fat_perror_ends message r m = refl

  mount_image_ends :
      (mounting : Bool) (v : Volume) (m : Machine P.World F.State)
      → ends whatever (mount_image T F mounting v m) ≡ true
  unfolding disk_map
  mount_image_ends mounting v m = ground arith

  opens_ends :
      (path : CString) (hdf b : Bool) (w : P.World)
      → ends whatever ((if hdf then hdf_image_open P path b else raw_image_open P path b) w) ≡ true
  opens_ends path true b w = hdf_image_open_ends P path b w
  opens_ends path false b w = raw_image_open_ends P path b w

  pub open_image_ends :
      (path : CString) (mounting b : Bool) (m : Machine P.World F.State)
      → ends whatever (open_image T F path mounting b m) ≡ true
  unfolding open_image
  open_image_ends path mounting b m =
      grind (arith, image_file_is_hdf_ends, opens_ends, mount_image_ends)

  module _ (G : Progresses P) where
    pub create_image_ends :
        (path : CString) (n : ℕ) (m : Machine P.World F.State)
        → ends whatever (create_image T F path n m) ≡ true
    unfolding create_image
    create_image_ends path n m =
        ground
          (arith, hdf_image_create_ends P G path n m.world, raw_image_create_ends P path n m.world)

    finish_ends :
        (s d : Volume) (status : ℤ) (m : Machine P.World F.State)
        → ends whatever (finish T F s d status m) ≡ true
    finish_ends s d status m =
        bind_ends whatever whatever (close_volume T F s m) _ (close_volume_ends s m) λ a m1 h.
          bind_ends whatever whatever (close_volume T F d m1) _ (close_volume_ends d m1)
            λ b m2 k. refl

    clone_next :
        (s d : Volume) (r : ℤ) (next : MainCmd T F ℤ) (m : Machine P.World F.State)
        → ends whatever (next m) ≡ true
        → ends whatever ((if is_negative r then finish T F s d minus_one else next) m) ≡ true
    clone_next s d (pos n) next m k = k
    clone_next s d (negsuc n) next m k = finish_ends s d minus_one m

    lift_ends :
        {A : Type 0} (q : A → Bool) (c : Cmd P.World A) (m : Machine P.World F.State)
        → ends q (c m.world) ≡ true
        → ends q (lift {F = F.State} c m) ≡ true
    lift_ends q c m h = ground arith

    pub clone_loop_ends :
        (fuel : ℕ) (s d : Volume) (position total : ℕ) (m : Machine P.World F.State)
        → total - position < fuel
        → ends whatever (clone_loop T F fuel s d position total m) ≡ true
    unfolding clone_loop
    clone_loop_ends zero s d position total m enough = absurd (omega arith)
    clone_loop_ends (suc fuel) s d position total m enough =
        elim (Bool-cases (ltb position total)) [
          | inr over ↦ rw over (finish_ends s d success m)
          | inl more ↦
              let size = chunk_size (total - position) in
              let low : size < 2 ^ 31 = ground arith in
              let left : total - (position + size) < fuel = ground arith in
              rw more (
                bind_ends (fits P G size) whatever
                  (lift {F = F.State} (volume_read P s position size) m) _
                  (lift_ends (fits P G size) (volume_read P s position size) m
                    (volume_read_ends P G s position size m.world low))
                  λ a m1 h1. clone_next s d a.0 _ m1 (
                    bind_ends whatever whatever
                      (lift {F = F.State} (volume_write P d position a.1) m1) _
                      (lift_ends whatever (volume_write P d position a.1) m1
                        (volume_write_ends P G d position a.1 m1.world (ground arith)))
                      λ b m2 h2.
                        clone_next s d b _ m2
                          (clone_loop_ends fuel s d (position + size) total m2 left)))
        ]
