-- ===== src/MakeListfs/Options.antt =====
-- The command line of make_listfs/make_listfs.c (`get_commandline_options`). `strncmp` and `atoi` are
-- those of the C library; a number with a minus is outside the model.
pub mod Last
use c4os.Common.{
  ℕ, zero, suc, Bool, true, false, not, ◌&&◌, Option, none, some, List, [], ◌∷◌, if◌then◌else◌,
  ◌==◌,
}
use c4os.Tty.Format.{codes}

pub record Options : Type 0 where
  pub output_file_name : Option (List ℕ)
  pub boot_loader_file_name : Option (List ℕ)
  pub source_dir_name : Option (List ℕ)
  pub block_size : ℕ
  pub block_count : ℕ

abbrev pub default_options : Options
default_options = record {
  output_file_name = none;
  boot_loader_file_name = none;
  source_dir_name = none;
  block_size = 512;
  block_count = 0;
}

-- `s + n`
abbrev pub behind : ℕ → List ℕ → List ℕ
behind zero s = s
behind (suc n) [] = []
behind (suc n) (c ∷ s) = behind n s

abbrev pub is_given : Option (List ℕ) → Bool
is_given none = false
is_given (some s) = true

module _ (strncmp : List ℕ → List ℕ → ℕ → ℕ) (atoi : List ℕ → ℕ) where
  unfoldable pub read_option : List ℕ → Options → Options
  read_option arg o =
      if strncmp arg (codes "of=") 3 == 0
      then (record o { output_file_name = some (behind 3 arg) })
      else (if strncmp arg (codes "bs=") 3 == 0
          then (record o { block_size = atoi (behind 3 arg) })
          else (if strncmp arg (codes "size=") 5 == 0
              then (record o { block_count = atoi (behind 5 arg) })
              else (if strncmp arg (codes "boot=") 5 == 0
                  then (record o { boot_loader_file_name = some (behind 5 arg) })
                  else (if strncmp arg (codes "src=") 4 == 0
                      then (record o { source_dir_name = some (behind 4 arg) })
                      else o))))

  unfoldable pub option_loop : List (List ℕ) → Options → Options
  unfolding read_option
  option_loop [] o = o
  option_loop (arg ∷ args) o = option_loop args (read_option arg o)

  -- The arguments without the name of the program.
  unfoldable pub get_commandline_options : List (List ℕ) → Bool × Options
  unfolding option_loop
  get_commandline_options args =
      let o = option_loop args default_options in
      (is_given o.output_file_name && not (o.block_count == 0), o)
