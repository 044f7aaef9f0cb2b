-- ===== src/ImageFile/Io/Refused.antt =====
-- `image_file_write` of src/image_file.c on an image that is open for reading only.
use hdfmonkey.Base.{
  ℕ, suc, ◌==◌, ◌+◌, ◌%◌, ◌^◌, ◌≤◌, ◌<◌, ◌≡◌, refl, ap, ◌∙◌, List, [], ◌∷◌, false, none, some,
  length, text, leb, ℤ, pos, minus_one, to_int, to_word, to_word-to_int_large, ok, arith,
  Bool-cases, inl, inr, leb→le, leb_false→lt,
}
use hdfmonkey.Posix.{Posix, View, IsHealthy, IsGuarded, Descriptor}
use hdfmonkey.Posix.Views.{lookup-update}
use hdfmonkey.ImageFile.Io.{image_file_write, write_loop}
use hdfmonkey.ImageFile.Io.Writes.{image_file_write_beyond}

to_int_pos : (n : ℕ) → n % 2 ^ 32 < 2 ^ 31 → to_int n ≡ pos (n % 2 ^ 32)
unfolding to_int
to_int_pos n h = ground arith

minus_one_large : 2 ^ 32 ≤ to_word minus_one
unfolding to_word
minus_one_large = omega arith

module _ (P : Posix) where
  loop_refused :
      (fuel fd count : ℕ) (bs : List ℕ) (w : P.World)
      → (count == 0) ≡ false
      → (P.write fd bs w).0 ≡ none
      → write_loop P (suc fuel) fd bs count 0 w
        ≡ ok minus_one (P.perror (text "write() error") (P.write fd bs w).1)
  unfolding write_loop
  loop_refused fuel fd count bs w c r = rw (c, r) refl

module _ (P : Posix) (V : View P) (H : IsHealthy P V) (G : IsGuarded P V) (w : P.World)
    (fd data_offset position : ℕ) (d : Descriptor) (opened : V.fds w fd ≡ some d)
    (closed : d.writeable ≡ false) where
  abbrev sought : P.World
  sought = (P.lseek fd (position + data_offset) w).1

  refused_run :
      (b : ℕ) (bs : List ℕ) (low : ℕ)
      → to_int (position + data_offset) ≡ pos low
      → (P.write fd (b ∷ bs) sought).0 ≡ none
      → image_file_write P fd data_offset position (b ∷ bs) w
        ≡ ok minus_one (P.perror (text "write() error") (P.write fd (b ∷ bs) sought).1)
  unfolding image_file_write
  refused_run b bs low e r =
      rw (H.lseek_result w fd (position + data_offset) d opened, e)
        (loop_refused P (length (b ∷ bs)) fd (length (b ∷ bs)) (b ∷ bs) sought (ground arith) r)

  -- A write of some bytes returns a negative number, which as a `size_t` is no size of 32 bits, and
  -- leaves every file as it was.
  pub image_file_write_refused :
      (bs : List ℕ)
      → 0 < length bs
      → (r : ℤ) × (after : P.World) × (image_file_write P fd data_offset position bs w ≡ ok r after)
        × (2 ^ 32 ≤ to_word r)
        × (V.files after ≡ V.files w)
  image_file_write_refused [] h = absurd (omega arith)
  image_file_write_refused (b ∷ bs) h =
      elim (Bool-cases (leb (2 ^ 31) ((position + data_offset) % 2 ^ 32))) [
        | inl beyond ↦
            let large = leb→le _ _ beyond in
            let (after, run, negative, files) =
              image_file_write_beyond P V H w fd data_offset position (b ∷ bs) d opened large in
            (to_int (position + data_offset), after, run, to_word-to_int_large _ large, files)
        | inr inside ↦
            let there : V.fds sought fd ≡ some (record d { offset = position + data_offset }) =
              ap (λ t. t fd) (H.lseek_fds w fd (position + data_offset) d opened)
              ∙ lookup-update (V.fds w) fd _ in
            let d1 : Descriptor = record d { offset = position + data_offset } in
            let after = P.perror (text "write() error") (P.write fd (b ∷ bs) sought).1 in
            (
              minus_one,
              after,
              refused_run b bs _ (to_int_pos _ (leb_false→lt _ _ inside))
                  (G.refused sought fd (b ∷ bs) d1 there closed),
              minus_one_large,
              (H.perror_same _ _).files
                  ∙ (G.refused_same sought fd (b ∷ bs) d1 there closed).files
                  ∙ H.lseek_files w fd (position + data_offset) d opened,
            )
      ]
