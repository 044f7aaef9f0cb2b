-- ===== src/Cli/Get/Delivers.antt =====
-- What `cmd_get` of src/hdfmonkey.c writes.
use hdfmonkey.Base.{
  ℕ, zero, suc, ◌+◌, ◌≡◌, refl, ap, List, [], ◌∷◌, true, false, none, some, ◌==◌, length,
  length-append, take, drop, take-append-drop, get_elem?, arith,
}
use hdfmonkey.Posix.{Posix, CString}
use hdfmonkey.Volume.{Volume}
use hdfmonkey.Machine.{Machine}
use hdfmonkey.FatFs.{FatFs}
use hdfmonkey.Libc.{Libc, Stream, stdout, opened}

-- A piece that is shorter than asked for is all that there was.
pub take_short : (n : ℕ) (xs : List ℕ) → (length (take n xs) == n) ≡ false → take n xs ≡ xs
take_short zero xs h = ground arith
take_short (suc n) [] h = refl
take_short (suc n) (x ∷ xs) h = ap (λ t. x ∷ t) (take_short n xs (ground arith))

pub take_full :
    (n : ℕ) (xs : List ℕ) → (length (take n xs) == n) ≡ true → length xs ≡ n + length (drop n xs)
take_full n xs h =
    let e : length (take n xs) ≡ n = ground arith in
    omega (arith, ap length (take-append-drop n xs), length-append (take n xs) (drop n xs))

pub take_nothing : (n : ℕ) (xs : List ℕ) → (length (take (suc n) xs) == 0) ≡ true → xs ≡ []
take_nothing n [] h = refl
take_nothing n (x ∷ xs) h = ground arith

module _ {P : Posix} (T : Libc P) (F : FatFs P) where
  -- The streams and files when the last piece has been written.
  abbrev finished : F.File → Stream → Machine P.World F.State → Machine P.World F.State
  finished file stdout m = (F.f_close file m).1
  finished file (opened n) m = record (F.f_close file m).1 {
    world = T.fclose (opened n) (F.f_close file m).1.world;
  }

  -- Where `cmd_get` writes to, and the state that it opens the image in.
  pub data Destination (argv : List CString) (m : Machine P.World F.State) (out : Stream)
      (m0 : Machine P.World F.State) : Type 0 where
    standard : get_elem? argv 4 ≡ none → out ≡ stdout → m0 ≡ m → Destination argv m out m0
    named :
        (path : CString)
        → get_elem? argv 4 ≡ some path
        → (T.fopen_write path m.world).0 ≡ some out
        → m0 ≡ record m { world = (T.fopen_write path m.world).1 }
        → Destination argv m out m0
