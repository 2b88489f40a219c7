-- ===== src/MakeListfs/Options/Last.antt =====
-- Which arguments the options of make_listfs/make_listfs.c come from.
use c4os.Common.{
  ℕ, ◌≡◌, refl, arith, ap, ◌∙◌, Bool, true, false, not, ◌&&◌, Option, none, some, List, [], ◌∷◌,
  if◌then◌else◌, ◌==◌, length, Bool-cases, inl, inr,
}
use c4os.Tty.Format.{codes}
use c4os.MakeListfs.Options.{
  Options, default_options, behind, is_given, read_option, option_loop, get_commandline_options,
}

abbrev pub begins : List ℕ → List ℕ → Bool
begins [] s = true
begins (k ∷ key) [] = false
begins (k ∷ key) (c ∷ s) = if c == k then begins key s else false

-- The keys differ at some place.
abbrev clash : List ℕ → List ℕ → Bool
clash [] ks = false
clash (j ∷ js) [] = false
clash (j ∷ js) (k ∷ ks) = if j == k then clash js ks else true

begins-clash : (js ks s : List ℕ) → clash js ks ≡ true → begins js s ≡ true → begins ks s ≡ false
begins-clash [] ks s c b = absurd (cc)
begins-clash (j ∷ js) [] s c b = absurd (cc)
begins-clash (j ∷ js) (k ∷ ks) [] c b = refl
begins-clash (j ∷ js) (k ∷ ks) (x ∷ s) c b = let ih = begins-clash js ks s in ground (arith, ih)

-- The text behind the key in the last argument that begins with it.
abbrev pub value : List ℕ → List (List ℕ) → Option (List ℕ)
value key [] = none
value key (arg ∷ args) = elim (value key args) [
  | some v ↦ some v
  | none ↦ if begins key arg then some (behind (length key) arg) else none
]

-- What a value is read as, and what stands for it where it is missing.
abbrev pub read_as : {A : Type 0} → (List ℕ → A) → A → Option (List ℕ) → A
read_as f d none = d
read_as f d (some v) = f v

read_as-value :
    {A : Type 0} (f : List ℕ → A) (d : A) (key arg : List ℕ) (args : List (List ℕ))
    → read_as f (if begins key arg then f (behind (length key) arg) else d) (value key args)
      ≡ read_as f d (value key (arg ∷ args))
read_as-value f d key arg args = last (value key args) (begins key arg)
  where
    last :
        (v : Option (List ℕ)) (b : Bool)
        → read_as f (if b then f (behind (length key) arg) else d) v
          ≡ read_as f d (elim v [
            | some w ↦ some w
            | none ↦ if b then some (behind (length key) arg) else none
          ])
    last (some w) b = refl
    last none true = refl
    last none false = refl

-- What the options are after some arguments.
abbrev pub options_of : (List ℕ → ℕ) → List (List ℕ) → Options → Options
options_of atoi args o = record {
  output_file_name = read_as (λ v. some v) o.output_file_name (value (codes "of=") args);
  boot_loader_file_name =
      read_as (λ v. some v) o.boot_loader_file_name (value (codes "boot=") args);
  source_dir_name = read_as (λ v. some v) o.source_dir_name (value (codes "src=") args);
  block_size = read_as atoi o.block_size (value (codes "bs=") args);
  block_count = read_as atoi o.block_count (value (codes "size=") args);
}

-- One argument: at most one of the keys begins it.
abbrev after_one : (List ℕ → ℕ) → List ℕ → Options → Options
after_one atoi a o = record {
  output_file_name = if begins (codes "of=") a then some (behind 3 a) else o.output_file_name;
  boot_loader_file_name =
      if begins (codes "boot=") a then some (behind 5 a) else o.boot_loader_file_name;
  source_dir_name = if begins (codes "src=") a then some (behind 4 a) else o.source_dir_name;
  block_size = if begins (codes "bs=") a then atoi (behind 3 a) else o.block_size;
  block_count = if begins (codes "size=") a then atoi (behind 5 a) else o.block_count;
}

module _ (strncmp : List ℕ → List ℕ → ℕ → ℕ) (atoi : List ℕ → ℕ)
    (compares : (s key : List ℕ) → (strncmp s key (length key) == 0) ≡ begins key s) where
  read_option-after_one :
      (a : List ℕ) (o : Options) → read_option strncmp atoi a o ≡ after_one atoi a o
  unfolding read_option
  read_option-after_one a o =
      rw
        (
          compares a (codes "of="),
          compares a (codes "bs="),
          compares a (codes "size="),
          compares a (codes "boot="),
          compares a (codes "src="),
        )
        (elim (Bool-cases (begins (codes "of=") a)) [
          | inl e ↦
              rw
                (
                  e,
                  begins-clash (codes "of=") (codes "bs=") a refl e,
                  begins-clash (codes "of=") (codes "size=") a refl e,
                  begins-clash (codes "of=") (codes "boot=") a refl e,
                  begins-clash (codes "of=") (codes "src=") a refl e,
                )
                refl
          | inr e ↦ rw e (elim (Bool-cases (begins (codes "bs=") a)) [
            | inl f ↦
                rw
                  (
                    f,
                    begins-clash (codes "bs=") (codes "size=") a refl f,
                    begins-clash (codes "bs=") (codes "boot=") a refl f,
                    begins-clash (codes "bs=") (codes "src=") a refl f,
                  )
                  refl
            | inr f ↦ rw f (elim (Bool-cases (begins (codes "size=") a)) [
              | inl g ↦
                  rw
                    (
                      g,
                      begins-clash (codes "size=") (codes "boot=") a refl g,
                      begins-clash (codes "size=") (codes "src=") a refl g,
                    )
                    refl
              | inr g ↦ rw g (elim (Bool-cases (begins (codes "boot=") a)) [
                | inl h ↦ rw (h, begins-clash (codes "boot=") (codes "src=") a refl h) refl
                | inr h ↦ rw h (elim (Bool-cases (begins (codes "src=") a)) [
                  | inl i ↦ rw i refl
                  | inr i ↦ rw i refl
                ])
              ])
            ])
          ])
        ])

  options_of-step :
      (a : List ℕ) (args : List (List ℕ)) (o : Options)
      → options_of atoi args (after_one atoi a o) ≡ options_of atoi (a ∷ args) o
  options_of-step a args o =
      rw
        (
          read_as-value (λ v. some v) o.output_file_name (codes "of=") a args,
          read_as-value (λ v. some v) o.boot_loader_file_name (codes "boot=") a args,
          read_as-value (λ v. some v) o.source_dir_name (codes "src=") a args,
          read_as-value atoi o.block_size (codes "bs=") a args,
          read_as-value atoi o.block_count (codes "size=") a args,
        )
        refl

  option_loop-options_of :
      (args : List (List ℕ)) (o : Options)
      → option_loop strncmp atoi args o ≡ options_of atoi args o
  unfolding option_loop
  option_loop-options_of [] o = refl
  option_loop-options_of (a ∷ args) o =
      ap (λ p. option_loop strncmp atoi args p) (read_option-after_one a o)
      ∙ option_loop-options_of args (after_one atoi a o)
      ∙ options_of-step a args o

  -- If `strncmp` gives 0 just where the key begins the text, each option has the value of the last
  -- argument that begins with its key, or else its default, in whatever order the options come, and
  -- the result says whether there is a name for the output file and a number of blocks that is not 0.
  pub get_commandline_options-options_of :
      (args : List (List ℕ))
      → ((get_commandline_options strncmp atoi args).1 ≡ options_of atoi args default_options)
        × ((get_commandline_options strncmp atoi args).0 ≡ (
            is_given (value (codes "of=") args)
            && not (read_as atoi 0 (value (codes "size=") args) == 0)))
  unfolding get_commandline_options
  get_commandline_options-options_of args = (
    option_loop-options_of args default_options,
    rw (option_loop-options_of args default_options)
        (given (value (codes "of=") args) (not (read_as atoi 0 (value (codes "size=") args) == 0))),
  )
    where
      given :
          (v : Option (List ℕ)) (b : Bool)
          → (is_given (read_as (λ w. some w) none v) && b) ≡ (is_given v && b)
      given none b = refl
      given (some w) b = refl
