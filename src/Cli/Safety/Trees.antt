-- ===== src/Cli/Safety/Trees.antt =====
-- `cmd_put`, `cmd_rebuild` and `main` of src/hdfmonkey.c do not fault.
use hdfmonkey.Base.{elem_given, length-set}
use hdfmonkey.Base.{
  Bool-cases, ℕ, zero, suc, ◌-◌, ◌≡◌, refl, List, [], ◌∷◌, ◌||◌, Bool, true, false, ltb,
  if◌then◌else◌, drop, take, set, length, text, pos, negsuc, ℤ, minus_one, pure, ◌>>=◌, arith,
  Option-cases, inl, inr, is_negative, same_bytes,
}
use hdfmonkey.Base.Safety.{holds, bind_safe}
use hdfmonkey.Posix.{Posix, CString}
use hdfmonkey.Machine.{Machine}
use hdfmonkey.FatFs.{FatFs, read_existing, write_always}
use hdfmonkey.Libc.{Libc}
use hdfmonkey.Cli.Names.{concat_filename, strip_trailing_slash}
use hdfmonkey.Cli.Support.{MainCmd, success, complain, fat_path_is_dir, is_directory}
use hdfmonkey.Cli.Rebuild.{copy_file}
use hdfmonkey.Cli.Put.{
  put_regular, ensure_directory, put_file, put_entries, put_all, put_sources, cmd_put,
  with_argument,
}
use hdfmonkey.Cli.Safety.{
  KeepsDrives, in_order, keeps, fat_perror_safe, fat_path_is_dir_safe, is_directory_safe,
}
use hdfmonkey.Cli.Safety.Loops.{copy_loop_safe, put_loop_safe}
use hdfmonkey.Cli.Safety.Images.{with_image_safe}

module _ {P : Posix} (T : Libc P) (F : FatFs P) (K : KeepsDrives F) where
  put_regular_safe :
      (fuel : ℕ) (source dest : CString) (m : Machine P.World F.State)
      → in_order F m ≡ true
      → holds (keeps F) (put_regular T F fuel source dest m) ≡ true
  unfolding put_regular
  put_regular_safe fuel source dest m h =
      let (s, w1) = T.fopen_read source m.world in
      elim (Option-cases s) [
        | inl e ↦ ground arith
        | inr (input, e) ↦
            let m1 = record m { world = w1 } in
            let (r, m2) = F.f_open dest write_always m1 in
            let k : in_order F m2 ≡ true = rw (K.f_open dest write_always m1) h in
            ground (
              arith,
              put_loop_safe T F K fuel input r.1 m2 k,
              fat_perror_safe T F (text "Error opening file for writing") r.0 m2,
            )
      ]

  ensure_directory_safe :
      (dest : CString) (m : Machine P.World F.State)
      → in_order F m ≡ true
      → holds (keeps F) (ensure_directory T F dest m) ≡ true
  unfolding ensure_directory
  ensure_directory_safe dest m h =
      grind (arith, fat_path_is_dir_safe T F K, fat_perror_safe, K.f_mkdir)

  -- A child is put whatever it returns.
  ignoring :
      (c d : MainCmd T F ℤ) (m : Machine P.World F.State)
      → holds (keeps F) (c m) ≡ true
      → ((m1 : Machine P.World F.State) → in_order F m1 ≡ true → holds (keeps F) (d m1) ≡ true)
      → holds (keeps F) ((c >>= λ status. d) m) ≡ true
  ignoring c d m h after = bind_safe (keeps F) (keeps F) (c m) _ h λ a m1 k. after m1 k

  pub unless :
      (b : Bool) (c d : MainCmd T F ℤ) (m : Machine P.World F.State)
      → holds (keeps F) (c m) ≡ true
      → holds (keeps F) (d m) ≡ true
      → holds (keeps F) ((if b then c else d) m) ≡ true
  unless true c d m h k = h
  unless false c d m h k = k

  put_safe :
      (fuel : ℕ)
      → ((source dest : CString) (m : Machine P.World F.State)
          → in_order F m ≡ true
          → holds (keeps F) (put_file T F fuel source dest m) ≡ true)
        × ((dir : ℕ) (source dest : CString) (m : Machine P.World F.State)
            → in_order F m ≡ true
            → holds (keeps F) (put_entries T F fuel dir source dest m) ≡ true)
  unfolding put_file put_entries
  put_safe zero = (λ source dest m h. refl, λ dir source dest m h. refl)
  put_safe (suc fuel) =
      let (file, entries) = put_safe fuel in
      (
        λ source dest m h.
            bind_safe (keeps F) (keeps F) (is_directory T F source m) _
              (is_directory_safe T F source m h)
              λ d m1 h1.
                unless d _ _ m1
                  (bind_safe (keeps F) (keeps F) (ensure_directory T F dest m1) _
                    (ensure_directory_safe dest m1 h1)
                    λ made m2 h2.
                      unless (is_negative made) _ _ m2 h2
                        (elim (Option-cases (T.opendir source m2.world).0) [
                          | inl e ↦ ground arith
                          | inr (dir, e) ↦
                              rw (e, holds)
                                (entries dir source dest
                                  (record m2 { world = (T.opendir source m2.world).1 }) h2)
                        ]))
                  (put_regular_safe fuel source dest m1 h1),
        λ dir source dest m h.
            let (entry, w1) = T.readdir dir m.world in
            let m1 = record m { world = w1 } in
            elim (Option-cases entry) [
              | inl e ↦ ground arith
              | inr (name, e) ↦
                  rw (e, holds)
                    (unless (same_bytes name (text ".") || same_bytes name (text "..")) _ _ m1
                      (entries dir source dest m1 h)
                      (ignoring
                        (put_file T F fuel (concat_filename source name)
                          (concat_filename dest name))
                        _ m1 (file (concat_filename source name) (concat_filename dest name) m1 h)
                        λ m2 h2. entries dir source dest m2 h2))
            ],
      )

  put_all_safe :
      (fuel : ℕ) (dest : CString) (sources : List CString) (m : Machine P.World F.State)
      → in_order F m ≡ true
      → holds (keeps F) (put_all T F fuel dest sources m) ≡ true
  unfolding put_all
  put_all_safe fuel dest [] m h = h
  put_all_safe fuel dest (source ∷ sources) m h =
      let (name, left) = T.basename source in
      ignoring (put_file T F fuel left (concat_filename dest name)) (put_all T F fuel dest sources)
        m ((put_safe fuel).0 left (concat_filename dest name) m h)
        λ m1 h1. put_all_safe fuel dest sources m1 h1

  given_safe :
      (argv : List CString) (i : ℕ) (next : CString → MainCmd T F ℤ) (m : Machine P.World F.State)
      → ltb (length argv) (suc i) ≡ false
      → ((a : CString) → holds (keeps F) (next a m) ≡ true)
      → holds (keeps F) (with_argument T F argv i next m) ≡ true
  given_safe argv i next m long safe =
      let (a, given) = elem_given argv i long in rw (with_argument, given) (safe a)

  -- What is done when it is known whether the destination is a directory.
  put_kind_safe :
      (fuel argc : ℕ) (argv : List CString) (dest : CString)
      → ltb (length argv) 4 ≡ false
      → (r : ℤ) (m : Machine P.World F.State) → in_order F m ≡ true
      → holds (keeps F) (
          (elim r as (λ r. MainCmd T F ℤ) [
            | negsuc n ↦ pure minus_one
            | pos zero ↦
                if ltb 5 argc
                then complain T F
                    (text "Destination must be an existing directory when copying multiple files")
                else with_argument T F (set argv (argc - 1) dest) 3 λ source. (do
                  status ← put_file T F fuel source dest
                  pure (if is_negative status then minus_one else success))
            | pos (suc n) ↦ put_all T F fuel dest (take (argc - 1 - 3) (drop 3 argv))
          ])
            m)
        ≡ true
  put_kind_safe fuel argc argv dest long (negsuc n) m h = h
  put_kind_safe fuel argc argv dest long (pos zero) m h = unless (ltb 5 argc) _ _ m h (
      given_safe (set argv (argc - 1) dest) 3 _ m (rw (length-set argv (argc - 1) dest) long)
        λ source.
          bind_safe (keeps F) (keeps F) (put_file T F fuel source dest m) _
            ((put_safe fuel).0 source dest m h) λ a m2 h2. h2)
  put_kind_safe fuel argc argv dest long (pos (suc n)) m h =
      put_all_safe fuel dest (take (argc - 1 - 3) (drop 3 argv)) m h

  put_sources_safe :
      (fuel : ℕ) (argv : List CString) (m : Machine P.World F.State)
      → ltb (length argv) 4 ≡ false
      → in_order F m ≡ true
      → holds (keeps F) (put_sources T F fuel (length argv) argv m) ≡ true
  unfolding put_sources
  put_sources_safe fuel argv m long h =
      given_safe argv (length argv - 1) _ m (ground (arith, long)) λ last.
        let dest = strip_trailing_slash last in
        bind_safe (keeps F) (keeps F) (fat_path_is_dir T F dest m) _
          (fat_path_is_dir_safe T F K dest m h) (put_kind_safe fuel (length argv) argv dest long)

  pub cmd_put_safe :
      (fuel : ℕ) (argv : List CString) (m : Machine P.World F.State)
      → in_order F m ≡ true
      → holds (keeps F) (cmd_put T F fuel argv m) ≡ true
  unfolding cmd_put
  cmd_put_safe fuel argv m h = elim (Bool-cases (ltb (length argv) 4)) [
    | inl short ↦ rw short h
    | inr long ↦ rw long (
        given_safe argv 2 _ m (ground (arith, long)) λ image.
          with_image_safe T F K image true true _ m h
            λ v m1 i h1. put_sources_safe fuel argv m1 long h1)
  ]

  pub copy_file_safe :
      (fuel : ℕ) (source dest : CString) (m : Machine P.World F.State)
      → in_order F m ≡ true
      → holds (keeps F) (copy_file T F fuel source dest m) ≡ true
  unfolding copy_file
  copy_file_safe fuel source dest m h =
      let (r, m1) = F.f_open source read_existing m in
      let h1 : in_order F m1 ≡ true = rw (K.f_open source read_existing m) h in
      let (s, m2) = F.f_open dest write_always m1 in
      let h2 : in_order F m2 ≡ true = rw (K.f_open dest write_always m1) h1 in
      grind (arith, copy_loop_safe T F K fuel r.1 s.1 m2 h2, fat_perror_safe, K.f_close)

  pub copied_next :
      (status : ℤ) (next : MainCmd T F ℤ) (m : Machine P.World F.State)
      → in_order F m ≡ true
      → holds (keeps F) (next m) ≡ true
      → holds
          (keeps F)
          ((elim status as (λ r. MainCmd T F ℤ) [ pos zero ↦ next | _ ↦ pure minus_one ]) m)
        ≡ true
  copied_next (pos zero) next m h k = k
  copied_next (pos (suc n)) next m h k = h
  copied_next (negsuc n) next m h k = h
