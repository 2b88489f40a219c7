-- ===== src/Tests/Tool.antt =====
-- The command line and the header of make_listfs/make_listfs.c, at concrete arguments and files.
use c4os.Common.{
  ℕ, zero, suc, ◌+◌, ◌*◌, ◌-◌, ◌∷◌, [], ◌≡◌, refl, arith, true, false, Bool, Option, none, some,
  List, if◌then◌else◌, ◌==◌, length, not, ◌&&◌, Bool-cases, inl, inr,
}
use c4os.Tty.Format.{codes}
use c4os.MakeListfs.{map_size, check_options}
use c4os.MakeListfs.Options.{
  Options, default_options, is_given, get_commandline_options, option_loop, read_option,
}
use c4os.MakeListfs.Options.Last.{
  begins, value, read_as, options_of, get_commandline_options-options_of,
}
use c4os.MakeListfs.Files.{ListfsFileHeader, Image}
use c4os.MakeListfs.Directories.{Listing}
use c4os.MakeListfs.Header.{header_bytes, written, main}
use c4os.MakeListfs.Header.Fields.{Reads, header_bytes-Reads}
use c4os.MakeListfs.Header.Bare.{IsBare, bare_header, main-IsBare}

-- A `strncmp` and an `atoi`.
abbrev compare : List ℕ → List ℕ → ℕ → ℕ
compare s key zero = 0
compare [] [] (suc n) = 0
compare [] (k ∷ key) (suc n) = 1
compare (c ∷ s) [] (suc n) = 1
compare (c ∷ s) (k ∷ key) (suc n) = if c == k then compare s key n else 1

compare-begins : (s key : List ℕ) → (compare s key (length key) == 0) ≡ begins key s
compare-begins [] [] = refl
compare-begins (c ∷ s) [] = refl
compare-begins [] (k ∷ key) = refl
compare-begins (c ∷ s) (k ∷ key) = elim (Bool-cases (c == k)) [
  | inl e ↦ rw e (compare-begins s key)
  | inr e ↦ rw e refl
]

abbrev decimal_from : ℕ → List ℕ → ℕ
decimal_from v [] = v
decimal_from v (c ∷ s) = decimal_from (v * 10 + (c - b'0')) s

abbrev to_number : List ℕ → ℕ
to_number s = decimal_from 0 s

abbrev arguments : List (List ℕ)
arguments = codes "size=8" ∷ codes "of=disk.img" ∷ codes "size=2880" ∷ []

get_commandline_options-options_of_example :
    ((get_commandline_options compare to_number arguments).1
      ≡ options_of to_number arguments default_options)
    × ((get_commandline_options compare to_number arguments).0 ≡ (
        is_given (value (codes "of=") arguments)
        && not (read_as to_number 0 (value (codes "size=") arguments) == 0)))
get_commandline_options-options_of_example =
    get_commandline_options-options_of compare to_number compare-begins arguments

abbrev given_options : Options
given_options = record default_options {
  output_file_name = some (codes "disk.img");
  block_count = 2880;
}

-- A file is what its reads will give.
abbrev ended : List (List ℕ) → Bool
ended [] = true
ended (b ∷ bs) = false

abbrev next_block : List (List ℕ) → List ℕ × List (List ℕ)
next_block [] = ([], [])
next_block (b ∷ bs) = (b, bs)

abbrev no_header : ListfsFileHeader
no_header = record {
  name = [];
  next = 0;
  prev = 0;
  parent = 0;
  flags = 0;
  data_ = 0;
  size = 0;
  create_time = 0;
  modify_time = 0;
  access_time = 0;
}

abbrev any_output : Options → Bool
any_output o = true

abbrev no_listing : List ℕ → Option (Listing (List (List ℕ)))
no_listing name = none

abbrev boot_blocks : List (List ℕ)
boot_blocks = (1 ∷ []) ∷ (2 ∷ []) ∷ (3 ∷ []) ∷ []

abbrev boot_files : List ℕ → Option (List (List ℕ))
boot_files name = some boot_blocks

main-IsBare_example :
    (final : Image) × (main ended next_block 4 no_header compare to_number any_output boot_files
        no_listing 7 arguments
      ≡ some (written final))
    × IsBare given_options 7 final
unfolding get_commandline_options option_loop read_option check_options map_size
main-IsBare_example =
    main-IsBare ended next_block 4 no_header compare to_number any_output boot_files no_listing 7
      arguments given_options refl refl refl refl refl (omega arith) (omega arith)

header_bytes-Reads_example :
    Reads (bare_header given_options 7) (header_bytes (bare_header given_options 7))
    × (length (header_bytes (bare_header given_options 7)) ≡ 512)
unfolding map_size
header_bytes-Reads_example =
    header_bytes-Reads (bare_header given_options 7) refl (omega arith) (record {
      magic = omega arith;
      version = omega arith;
      flags = omega arith;
      base = omega arith;
      size = omega arith;
      map_base = omega arith;
      map_size = omega arith;
      first_file = omega arith;
      uid = omega arith;
      block_size = omega arith;
    })

abbrev boot_options : Options
boot_options = record given_options { boot_loader_file_name = some (codes "boot.bin") }
