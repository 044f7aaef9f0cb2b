-- ===== src/Posix/Views.antt =====
-- What a run over the system calls leaves to see, and the algebra of the two views.
use mathlib.Core.Path.{fun_ext}
use hdfmonkey.Base.{
  ℕ, ◌≡◌, sym, ap, ◌∙◌, List, Option, some, Run, ok, arith, same_bytes, same_bytes_self, Bool-cases,
  inl, inr, same_bytes→eq, false,
}
use hdfmonkey.Posix.{Posix, View, Descriptor, update, update_file, CString}

abbrev pub advance : Descriptor → ℕ → Descriptor
advance d n = record d { offset = n }

pub update_self :
    (fds : ℕ → Option Descriptor) (fd : ℕ) (d : Descriptor) (n : ℕ)
    → fds fd ≡ some d
    → n ≡ d.offset
    → fds ≡ update fds fd (some (advance d n))
update_self fds fd d n h e = fun_ext λ j. ground arith

pub update-update :
    (fds : ℕ → Option Descriptor) (fd : ℕ) (a b : Option Descriptor)
    → update (update fds fd a) fd b ≡ update fds fd b
update-update fds fd a b = fun_ext λ j. ground arith

pub lookup-update :
    (fds : ℕ → Option Descriptor) (fd : ℕ) (a : Option Descriptor) → update fds fd a fd ≡ a
lookup-update fds fd a = ground arith

module _ (files : CString → Option (List ℕ)) (path : CString) where
  pub file-update : (bytes : List ℕ) → update_file files path bytes path ≡ some bytes
  file-update bytes = rw (same_bytes_self path)

  pub file-update_ne :
      (bytes : List ℕ) (other : CString)
      → same_bytes other path ≡ false
      → update_file files path bytes other ≡ files other
  file-update_ne bytes other h = rw h

  pub update_file-update_file :
      (a b : List ℕ) → update_file (update_file files path a) path b ≡ update_file files path b
  update_file-update_file a b = fun_ext λ p. ground arith

  pub update_file_self :
      (bytes : List ℕ) → files path ≡ some bytes → update_file files path bytes ≡ files
  update_file_self bytes e = fun_ext λ p. elim (Bool-cases (same_bytes p path)) [
    | inl same ↦ rw same (rw (same_bytes→eq p path same) (sym e))
    | inr apart ↦ rw apart
  ]

module _ (P : Posix) (V : View P) where
  -- A run has come to its end with the result `r`, and these are then the files and descriptors.
  pub record Returns {R : Type 0} (run : Run P.World R) (r : R) (files : CString → Option (List ℕ))
      (fds : ℕ → Option Descriptor) : Type 0 where
    pub after : P.World
    pub result : run ≡ ok r after
    pub files_after : V.files after ≡ files
    pub fds_after : V.fds after ≡ fds

  -- The same, told otherwise.
  pub Returns-eq :
      {R : Type 0} {run run' : Run P.World R} {r r' : R} {files files' : CString → Option (List ℕ)}
      {fds fds' : ℕ → Option Descriptor}
      → run' ≡ run
      → r ≡ r'
      → files ≡ files'
      → fds ≡ fds'
      → Returns run r files fds
      → Returns run' r' files' fds'
  Returns-eq e f g h x = record {
    after = x.after;
    result = e ∙ x.result ∙ ap (λ t. ok t x.after) f;
    files_after = x.files_after ∙ g;
    fds_after = x.fds_after ∙ h;
  }
