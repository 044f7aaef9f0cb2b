-- ===== src/Cli/Safety/Loops.antt =====
-- The loops of src/hdfmonkey.c do not fault.
use hdfmonkey.Base.{
  ℕ, zero, suc, ◌+◌, ◌-◌, ◌≡◌, refl, true, ltb, if◌then◌else◌, pos, negsuc, ℤ, arith, text,
  is_negative, minus_one, Bool-cases, inl, inr,
}
use hdfmonkey.Base.Safety.{holds, bind_safe}
use hdfmonkey.Posix.{Posix}
use hdfmonkey.Volume.{Volume}
use hdfmonkey.ImageFile.Safety.{is_image, volume_read_safe, volume_write_safe}
use hdfmonkey.Machine.{Machine, lift}
use hdfmonkey.FatFs.{FatFs}
use hdfmonkey.Libc.{Libc, Stream, stdout, opened}
use hdfmonkey.Volume.Dispatch.{volume_read, volume_write}
use hdfmonkey.Cli.Support.{MainCmd, close_volume, success}
use hdfmonkey.Cli.Get.{get_loop, buffer_size}
use hdfmonkey.Cli.Listing.{ls_loop, entry_line}
use hdfmonkey.Cli.Put.{put_loop}
use hdfmonkey.Cli.Rebuild.{copy_loop}
use hdfmonkey.Cli.Clone.{clone_loop, chunk_size, finish}
use hdfmonkey.Cli.Safety.{
  KeepsDrives, in_order, keeps, lift_safe, fat_perror_safe, close_volume_safe,
}

module _ {P : Posix} (T : Libc P) (F : FatFs P) (K : KeepsDrives F) where
  pub get_loop_safe :
      (fuel : ℕ) (file : F.File) (out : Stream) (m : Machine P.World F.State)
      → in_order F m ≡ true
      → holds (keeps F) (get_loop T F fuel file out m) ≡ true
  unfolding get_loop
  get_loop_safe zero file out m h = refl
  get_loop_safe (suc fuel) file stdout m h =
      let (r, m1) = F.f_read file buffer_size m in
      grind (
        arith,
        fat_perror_safe,
        K.f_read,
        K.f_close,
        get_loop_safe fuel r.2 stdout (record m1 { world = T.fwrite stdout r.1 m1.world }),
      )
  get_loop_safe (suc fuel) file (opened n) m h =
      let (r, m1) = F.f_read file buffer_size m in
      grind (
        arith,
        fat_perror_safe,
        K.f_read,
        K.f_close,
        get_loop_safe fuel r.2 (opened n) (record m1 { world = T.fwrite (opened n) r.1 m1.world }),
      )

  pub ls_loop_safe :
      (fuel : ℕ) (v : Volume) (dir : F.Dir) (m : Machine P.World F.State)
      → is_image v ≡ true
      → in_order F m ≡ true
      → holds (keeps F) (ls_loop T F fuel v dir m) ≡ true
  unfolding ls_loop
  ls_loop_safe zero v dir m i h = refl
  ls_loop_safe (suc fuel) v dir m i h =
      let (r, m1) = F.f_readdir dir m in
      let k : in_order F m1 ≡ true = rw (K.f_readdir dir m) h in
      ground (
        arith,
        fat_perror_safe T F (text "Error reading dir") r.0 m1,
        close_volume_safe T F v m1,
        ls_loop_safe fuel v r.2 (record m1 { world = T.print (entry_line T F r.1) m1.world }) i,
      )

  pub copy_loop_safe :
      (fuel : ℕ) (source destination : F.File) (m : Machine P.World F.State)
      → in_order F m ≡ true
      → holds (keeps F) (copy_loop T F fuel source destination m) ≡ true
  unfolding copy_loop
  copy_loop_safe zero source destination m h = refl
  copy_loop_safe (suc fuel) source destination m h =
      let (r, m1) = F.f_read source buffer_size m in
      let (s, m2) = F.f_write destination r.1 m1 in
      grind (arith, fat_perror_safe, K.f_read, K.f_write, K.f_close, copy_loop_safe fuel r.2 s.2 m2)

  pub put_loop_safe :
      (fuel : ℕ) (input : Stream) (output : F.File) (m : Machine P.World F.State)
      → in_order F m ≡ true
      → holds (keeps F) (put_loop T F fuel input output m) ≡ true
  unfolding put_loop
  put_loop_safe zero input output m h = refl
  put_loop_safe (suc fuel) input output m h =
      let (bytes, w1) = T.fread input buffer_size m.world in
      let (s, m2) = F.f_write output bytes (record m { world = w1 }) in
      grind (arith, fat_perror_safe, K.f_write, K.f_close, put_loop_safe fuel input s.2 m2)

  finish_safe :
      (s d : Volume) (status : ℤ) (m : Machine P.World F.State)
      → is_image s ≡ true
      → is_image d ≡ true
      → in_order F m ≡ true
      → holds (keeps F) (finish T F s d status m) ≡ true
  finish_safe s d status m i j h =
      bind_safe (keeps F) (keeps F) (close_volume T F s m) _ (close_volume_safe T F s m i h)
        λ a m1 h1.
          bind_safe (keeps F) (keeps F) (close_volume T F d m1) _ (close_volume_safe T F d m1 j h1)
            λ b m2 h2. h2

  clone_written :
      (s d : Volume) (r : ℤ) (next : MainCmd T F ℤ) (m : Machine P.World F.State)
      → is_image s ≡ true
      → is_image d ≡ true
      → in_order F m ≡ true
      → holds (keeps F) (next m) ≡ true
      → holds (keeps F) ((if is_negative r then finish T F s d minus_one else next) m) ≡ true
  clone_written s d (pos n) next m i j h k = k
  clone_written s d (negsuc n) next m i j h k = finish_safe s d minus_one m i j h

  pub clone_loop_safe :
      (fuel : ℕ) (s d : Volume) (position total : ℕ) (m : Machine P.World F.State)
      → is_image s ≡ true
      → is_image d ≡ true
      → in_order F m ≡ true
      → holds (keeps F) (clone_loop T F fuel s d position total m) ≡ true
  unfolding clone_loop
  clone_loop_safe zero s d position total m i j h = refl
  clone_loop_safe (suc fuel) s d position total m i j h = elim (Bool-cases (ltb position total)) [
    | inr over ↦ rw over (finish_safe s d success m i j h)
    | inl more ↦
        let size = chunk_size (total - position) in
        rw more (
          bind_safe (keeps F) (keeps F) (lift {F = F.State} (volume_read P s position size) m) _
            (lift_safe F (volume_read P s position size) m
              (volume_read_safe P s position size m.world i) h)
            λ a m1 h1. clone_written s d a.0 _ m1 i j h1 (
              bind_safe (keeps F) (keeps F) (lift {F = F.State} (volume_write P d position a.1) m1)
                _
                (lift_safe F (volume_write P d position a.1) m1
                  (volume_write_safe P d position a.1 m1.world j) h1)
                λ b m2 h2.
                  clone_written s d b _ m2 i j h2
                    (clone_loop_safe fuel s d (position + size) total m2 i j h2)))
  ]
