-- ===== src/MakeListfs/Header/Fields.antt =====
-- The fields in the header block of make_listfs/make_listfs.c, read again.
use c4os.Common.{
  ℕ, zero, suc, ◌+◌, ◌*◌, ◌/◌, ◌^◌, ◌<◌, ◌≤◌, ◌≡◌, refl, arith, ap, List, [], ◌∷◌, length,
}
use c4os.MakeListfs.Options.{behind}
use c4os.MakeListfs.Directories.{cut}
use c4os.MakeListfs.Header.{ListfsHeader, number_bytes, header_bytes}

-- The number in bytes, the lowest first.
abbrev pub number_of : List ℕ → ℕ
number_of [] = 0
number_of (b ∷ bs) = b + 256 * number_of bs

number_of-number_bytes : (n v : ℕ) → v < 256 ^ n → number_of (number_bytes n v) ≡ v
number_of-number_bytes zero v h = omega arith
number_of-number_bytes (suc n) v h =
    omega (arith, number_of-number_bytes n (v / 256) (omega (arith, h)))

-- The number of `n` bytes at a place of the block.
abbrev pub field_at : ℕ → ℕ → List ℕ → ℕ
field_at offset n block = number_of (cut n (behind offset block))

-- The numbers fit their fields.
pub record Fits (h : ListfsHeader) : Type 0 where
  pub magic : h.magic < 0x1_0000_0000
  pub version : h.version < 0x1_0000_0000
  pub flags : h.flags < 0x1_0000_0000
  pub base : h.base < 2 ^ 64
  pub size : h.size < 2 ^ 64
  pub map_base : h.map_base < 2 ^ 64
  pub map_size : h.map_size < 2 ^ 64
  pub first_file : h.first_file < 2 ^ 64
  pub uid : h.uid < 2 ^ 64
  pub block_size : h.block_size < 0x1_0000_0000

-- The fields stand at the places of the packed structure.
pub record Reads (h : ListfsHeader) (block : List ℕ) : Type 0 where
  pub magic : field_at 4 4 block ≡ h.magic
  pub version : field_at 8 4 block ≡ h.version
  pub flags : field_at 12 4 block ≡ h.flags
  pub base : field_at 16 8 block ≡ h.base
  pub size : field_at 24 8 block ≡ h.size
  pub map_base : field_at 32 8 block ≡ h.map_base
  pub map_size : field_at 40 8 block ≡ h.map_size
  pub first_file : field_at 48 8 block ≡ h.first_file
  pub uid : field_at 56 8 block ≡ h.uid
  pub block_size : field_at 64 4 block ≡ h.block_size

length-behind : (n : ℕ) (s : List ℕ) → n ≤ length s → n + length (behind n s) ≡ length s
length-behind zero s h = omega arith
length-behind (suc n) [] h = absurd (omega arith)
length-behind (suc n) (c ∷ s) h = omega (arith, length-behind n s (omega (arith, h)))

-- Where the boot loader's first block is a whole block, of at least the 68 bytes of the packed
-- structure, the header block has the size of a block, and fields that fit are read from it as they
-- are, each at its place in the structure.
pub header_bytes-Reads :
    (h : ListfsHeader)
    → length h.boot ≡ h.block_size
    → 68 ≤ h.block_size
    → Fits h
    → Reads h (header_bytes h) × (length (header_bytes h) ≡ h.block_size)
unfolding header_bytes cut
header_bytes-Reads h whole many fits = at h.boot (omega (arith, whole)) refl
  where
    at :
        (boot : List ℕ)
        → 68 ≤ length boot
        → h.boot ≡ boot
        → Reads h (header_bytes h) × (length (header_bytes h) ≡ h.block_size)
    at [] m e = absurd (omega arith)
    at (a ∷ []) m e = absurd (omega arith)
    at (a ∷ b ∷ []) m e = absurd (omega arith)
    at (a ∷ b ∷ c ∷ []) m e = absurd (omega arith)
    at (a ∷ b ∷ c ∷ d ∷ boot) m e = rw e (
        (
          record {
            magic = number_of-number_bytes 4 h.magic fits.magic;
            version = number_of-number_bytes 4 h.version fits.version;
            flags = number_of-number_bytes 4 h.flags fits.flags;
            base = number_of-number_bytes 8 h.base fits.base;
            size = number_of-number_bytes 8 h.size fits.size;
            map_base = number_of-number_bytes 8 h.map_base fits.map_base;
            map_size = number_of-number_bytes 8 h.map_size fits.map_size;
            first_file = number_of-number_bytes 8 h.first_file fits.first_file;
            uid = number_of-number_bytes 8 h.uid fits.uid;
            block_size = number_of-number_bytes 4 h.block_size fits.block_size;
          },
          omega (arith, whole, ap length e, length-behind 64 boot (omega (arith, m))),
        ))
