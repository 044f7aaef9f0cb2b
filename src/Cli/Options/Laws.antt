-- ===== src/Cli/Options/Laws.antt =====
-- What the option loop of src/hdfmonkey.c collects.
use mathlib.Core.Path.{subst}
use mathlib.Core.List.{append-nil, append_assoc}
use hdfmonkey.Base.{
  ℕ, zero, suc, ◌≡◌, refl, sym, ap, ◌∙◌, List, [], ◌∷◌, ◌++◌, Option, none, some, if◌then◌else◌,
  get_elem?, length, length-append, text, same_bytes, arith, Option-cases, inl, inr,
}
use hdfmonkey.Posix.{CString}
use hdfmonkey.FatFs.{Format, fat12, fat16, fat32}
use hdfmonkey.Cli.Options.{Options, no_options, take_argument, option_step, parse_options}

-- The format that an argument asks for; `none` for one that is no flag.
abbrev pub flag_of : CString → Option Format
flag_of arg =
    if same_bytes arg (text "--fat12")
    then some fat12
    else if same_bytes arg (text "--fat16")
    then some fat16
    else if same_bytes arg (text "--fat32")
    then some fat32
    else none

abbrev cons_unless : Option Format → CString → List CString → List CString
cons_unless none arg args = arg ∷ args
cons_unless (some f) arg args = args

-- The arguments that are no flags.
unfoldable pub plain : List CString → List CString
plain [] = []
plain (arg ∷ args) = cons_unless (flag_of arg) arg (plain args)

abbrev pub ArePlain : List CString → Type 0
ArePlain [] = Unit
ArePlain (arg ∷ args) = (flag_of arg ≡ none) × ArePlain args

-- The loop has seen exactly the plain arguments `xs`.
pub record IsCollected (o : Options) (xs : List CString) : Type 0 where
  pub count : o.arg_num ≡ length xs
  pub first : o.arg_0 ≡ get_elem? xs 0
  pub second : o.arg_1 ≡ get_elem? xs 1
  pub third : o.arg_2 ≡ get_elem? xs 2

take_argument-IsCollected :
    (arg : CString) (n : ℕ) (xs : List CString) (o : Options)
    → n ≡ length xs
    → IsCollected o xs
    → IsCollected (take_argument arg n o) (xs ++ (arg ∷ []))
unfolding take_argument
take_argument-IsCollected arg zero [] o e i = record {
  count = refl;
  first = refl;
  second = i.second;
  third = i.third;
}
take_argument-IsCollected arg (suc zero) (a ∷ []) o e i = record {
  count = refl;
  first = i.first;
  second = refl;
  third = i.third;
}
take_argument-IsCollected arg (suc (suc zero)) (a ∷ b ∷ []) o e i = record {
  count = refl;
  first = i.first;
  second = i.second;
  third = refl;
}
take_argument-IsCollected arg (suc (suc (suc n))) (a ∷ b ∷ c ∷ xs) o e i = record {
  count = omega (arith, length-append xs (arg ∷ []));
  first = i.first;
  second = i.second;
  third = i.third;
}
take_argument-IsCollected arg zero (a ∷ xs) o e i = absurd (omega arith)
take_argument-IsCollected arg (suc n) [] o e i = absurd (omega arith)
take_argument-IsCollected arg (suc (suc n)) (a ∷ []) o e i = absurd (omega arith)
take_argument-IsCollected arg (suc zero) (a ∷ b ∷ xs) o e i = absurd (omega arith)
take_argument-IsCollected arg (suc (suc (suc n))) (a ∷ b ∷ []) o e i = absurd (omega arith)
take_argument-IsCollected arg (suc (suc zero)) (a ∷ b ∷ c ∷ xs) o e i = absurd (omega arith)

-- A step, by whether the argument is a flag.
step_plain :
    (arg : CString) (o : Options)
    → flag_of arg ≡ none
    → option_step arg o ≡ take_argument arg o.arg_num o
unfolding option_step
step_plain arg o h = ground arith

step_flag :
    (arg : CString) (f : Format) (o : Options)
    → flag_of arg ≡ some f
    → option_step arg o ≡ record o { fmt = f }
unfolding option_step
step_flag arg f o h = grind arith

parse_options_collects :
    (args : List CString) (xs : List CString) (o : Options)
    → IsCollected o xs
    → IsCollected (parse_options args o) (xs ++ plain args)
unfolding parse_options plain
parse_options_collects [] xs o i = subst (λ t. IsCollected o t) (sym (append-nil xs)) i
parse_options_collects (arg ∷ args) xs o i = elim (Option-cases (flag_of arg)) [
  | inl none_given ↦
      subst
        (λ t. IsCollected (parse_options args t) (xs ++ cons_unless (flag_of arg) arg (plain args)))
        (sym (step_plain arg o none_given))
        (subst
          (λ t.
            IsCollected (parse_options args (take_argument arg o.arg_num o))
              (xs ++ cons_unless t arg (plain args)))
          (sym none_given)
          (subst (λ t. IsCollected (parse_options args (take_argument arg o.arg_num o)) t)
            (append_assoc xs (arg ∷ []) (plain args))
            (parse_options_collects args (xs ++ (arg ∷ [])) (take_argument arg o.arg_num o)
              (take_argument-IsCollected arg o.arg_num xs o i.count i))))
  | inr (f, given) ↦
      subst
        (λ t. IsCollected (parse_options args t) (xs ++ cons_unless (flag_of arg) arg (plain args)))
        (sym (step_flag arg f o given))
        (subst
          (λ t.
            IsCollected (parse_options args (record o { fmt = f }))
              (xs ++ cons_unless t arg (plain args)))
          (sym given)
          (parse_options_collects args xs (record o { fmt = f })
            (record { count = i.count; first = i.first; second = i.second; third = i.third })))
]

-- However flags and other arguments are mixed, the loop ends with the number of the arguments that are
-- no flags, and with the first three of them, none of which is set when it was not given.
pub parse_options-IsCollected :
    (args : List CString) → IsCollected (parse_options args no_options) (plain args)
parse_options-IsCollected args =
    parse_options_collects args [] no_options
      (record { count = refl; first = refl; second = refl; third = refl })

parse_options-append :
    (args rest : List CString) (o : Options)
    → parse_options (args ++ rest) o ≡ parse_options rest (parse_options args o)
unfolding parse_options
parse_options-append [] rest o = refl
parse_options-append (arg ∷ args) rest o = parse_options-append args rest (option_step arg o)

take_argument_fmt : (arg : CString) (n : ℕ) (o : Options) → (take_argument arg n o).fmt ≡ o.fmt
unfolding take_argument
take_argument_fmt arg zero o = refl
take_argument_fmt arg (suc zero) o = refl
take_argument_fmt arg (suc (suc zero)) o = refl
take_argument_fmt arg (suc (suc (suc n))) o = refl

-- Arguments that are no flags leave the format.
plain_fmt : (args : List CString) (o : Options) → ArePlain args → (parse_options args o).fmt ≡ o.fmt
unfolding parse_options
plain_fmt [] o h = refl
plain_fmt (arg ∷ args) o (h, hs) =
    plain_fmt args (option_step arg o) hs
    ∙ ap (λ t. t.fmt) (step_plain arg o h)
    ∙ take_argument_fmt arg o.arg_num o

-- The last flag decides the format, wherever it stands and whatever flags stand before it.
parse_options_last_flag :
    (args : List CString) (flag : CString) (f : Format) (rest : List CString) (o : Options)
    → flag_of flag ≡ some f
    → ArePlain rest
    → (parse_options (args ++ (flag ∷ rest)) o).fmt ≡ f
unfolding parse_options
parse_options_last_flag args flag f rest o given h =
    ap (λ t. t.fmt) (parse_options-append args (flag ∷ rest) o)
    ∙ plain_fmt rest (option_step flag (parse_options args o)) h
    ∙ ap (λ t. t.fmt) (step_flag flag f (parse_options args o) given)
