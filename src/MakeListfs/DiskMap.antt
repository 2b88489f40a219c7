-- ===== src/MakeListfs/DiskMap.antt =====
-- The map of the blocks in use, of make_listfs/make_listfs.c, as a set of blocks.
use c4os.Common.{
  ℕ, zero, suc, ◌+◌, ◌*◌, ◌≢◌, ◌/◌, ◌%◌, ◌^◌, ◌≤◌, ◌<◌, ◌≡◌, refl, arith, Bool, true, false, Option,
  none, some, ◌==◌, ltb, if◌then◌else◌, bit_or, bit_or_bit, every_below, every_below_sound, Ensures,
  Ensures-mono, Ensures-bind, Bool-cases, inl, inr, subst, sym, ==→eq, ==_self, ==_ne, leb, ◌∙◌,
}
use native.Mathlib.Nat.{zero-div, div-add-mod, mod-lt, add-div_right, mul-add, mul-one}
use c4os.MakeListfs.{
  is_used, get_disk_block, alloc_loop, mark_found, alloc_disk_block, mark_first, init_disk_map,
  map_size,
}

-- Each of the eight bits of a byte has a mask of its own.
one_bit : (j k : ℕ) → j < 8 → k < 8 → 2 ^ j / 2 ^ k % 2 ≡ (if k == j then 1 else 0)
unfolding every_below
one_bit j k hj hk = ==→eq (2 ^ j / 2 ^ k % 2) (if k == j then 1 else 0) (
    every_below_sound 8 (test j) k (every_below_sound 8 (λ i. every_below 8 (test i)) j refl hj) hk)
  where
    test : ℕ → ℕ → Bool
    test i m = (2 ^ i / 2 ^ m % 2) == (if m == i then 1 else 0)

same_byte :
    (i j b : ℕ)
    → j / 8 ≡ i / 8
    → (bit_or b (2 ^ (i % 8)) / 2 ^ (j % 8) % 2 == 1)
      ≡ (if j == i then true else (b / 2 ^ (j % 8) % 2 == 1))
same_byte i j b e =
    rw (bit_or_bit (j % 8) b (2 ^ (i % 8)), one_bit (i % 8) (j % 8) (omega arith) (omega arith))
      (elim (Bool-cases (j == i)) [
        | inl at ↦ rw at (ground (arith, ==→eq j i at))
        | inr off ↦ ground arith
      ])

-- Marking a block marks it, and no other.
get_disk_block-is_used :
    (i j : ℕ) (disk_map : ℕ → ℕ)
    → is_used (get_disk_block i disk_map) j ≡ (if j == i then true else is_used disk_map j)
unfolding is_used get_disk_block
get_disk_block-is_used i j disk_map = elim (Bool-cases (j / 8 == i / 8)) [
  | inl e ↦
      let at = ==→eq (j / 8) (i / 8) e in
      rw (at, ==_self (i / 8)) (same_byte i j (disk_map (i / 8)) at)
  | inr e ↦ rw (e, ==_ne j i (λ q. ground (arith, ==_self (i / 8)))) refl
]

-- What the search from block `index` on finds, all blocks before it being in use.
Found : ℕ → (ℕ → ℕ) → ℕ → Option ℕ → Type 0
Found size disk_map index none = (j : ℕ) → index ≤ j → j < size → is_used disk_map j ≡ true
Found size disk_map index (some i) =
    (i < size)
    × (index ≤ i)
    × (is_used disk_map i ≡ false)
    × ((j : ℕ) → index ≤ j → j < i → is_used disk_map j ≡ true)

Found-step :
    (size index : ℕ) (disk_map : ℕ → ℕ) (o : Option ℕ)
    → is_used disk_map index ≡ true
    → Found size disk_map (index + 1) o
    → Found size disk_map index o
unfolding Found
Found-step size index disk_map none u h = λ j p q. elim (Bool-cases (j == index)) [
  | inl e ↦ subst (λ m. is_used disk_map m ≡ true) (sym (==→eq j index e)) u
  | inr ne ↦ h j (ground (arith, ==_self j)) q
]
Found-step size index disk_map (some i) u h = (
  h.0,
  omega (arith, h.1),
  h.2,
  λ j p q. elim (Bool-cases (j == index)) [
    | inl e ↦ subst (λ m. is_used disk_map m ≡ true) (sym (==→eq j index e)) u
    | inr ne ↦ h.3 j (ground (arith, ==_self j)) q
  ],
)

only : (index j : ℕ) {size : ℕ} → index ≤ j → leb size (index + 1) ≡ true → j < size → index ≡ j
only index j p e q = ground arith

alloc_loop-Found :
    (fuel size index : ℕ) (disk_map : ℕ → ℕ)
    → index < size
    → size < index + fuel
    → Ensures (Found size disk_map index) (alloc_loop fuel size index disk_map)
unfolding alloc_loop Found
alloc_loop-Found zero size index disk_map lo hi = absurd (omega arith)
alloc_loop-Found (suc fuel) size index disk_map lo hi = elim (Bool-cases (is_used disk_map index)) [
  | inl u ↦ rw u (elim (Bool-cases (leb size (index + 1))) [
    | inl e ↦ rw e (λ j p q. subst (λ m. is_used disk_map m ≡ true) (only index j p e q) u)
    | inr e ↦ rw e (
        Ensures-mono (Found size disk_map (index + 1)) (Found size disk_map index)
          (alloc_loop fuel size (index + 1) disk_map)
          (alloc_loop-Found fuel size (index + 1) disk_map (ground arith) (omega arith))
          (λ o h. Found-step size index disk_map o u h))
  ])
  | inr u ↦ rw u (lo, omega arith, u, λ j p q. absurd (omega arith))
]

-- What comes of an allocation: all blocks are in use, or the first that is not is taken, and is
-- marked with no other.
abbrev pub Allocates : ℕ → (ℕ → ℕ) → Option (ℕ × (ℕ → ℕ)) → Type 0
Allocates size disk_map none = (j : ℕ) → j < size → is_used disk_map j ≡ true
Allocates size disk_map (some (i, marked)) =
    (i < size)
    × (is_used disk_map i ≡ false)
    × ((j : ℕ) → j < i → is_used disk_map j ≡ true)
    × ((j : ℕ) → is_used marked j ≡ (if j == i then true else is_used disk_map j))

mark_found-Allocates :
    (size : ℕ) (disk_map : ℕ → ℕ) (o : Option ℕ)
    → Found size disk_map 0 o
    → Allocates size disk_map (mark_found disk_map o)
unfolding mark_found Found
mark_found-Allocates size disk_map none all = λ j q. all j (omega arith) q
mark_found-Allocates size disk_map (some i) f =
    (f.0, f.2, λ j q. f.3 j (omega arith) q, λ j. get_disk_block-is_used i j disk_map)

-- On a disk that has blocks `alloc_disk_block` gives up only if all are in use, and otherwise takes
-- the first block that is not, and marks that block and no other.
pub alloc_disk_block-Allocates :
    (size : ℕ) (disk_map : ℕ → ℕ)
    → 0 < size
    → Ensures (Allocates size disk_map) (alloc_disk_block size disk_map)
unfolding alloc_disk_block
alloc_disk_block-Allocates size disk_map h =
    Ensures-bind (Found size disk_map 0) (Allocates size disk_map)
      (alloc_loop (size + 1) size 0 disk_map) (λ found. some (mark_found disk_map found))
      (alloc_loop-Found (size + 1) size 0 disk_map h (omega arith))
      (λ o f. mark_found-Allocates size disk_map o f)

no_block : (j : ℕ) → is_used (λ i. 0) j ≡ false
unfolding is_used
no_block j = rw (zero-div (2 ^ (j % 8)))

mark_first-is_used : (n j : ℕ) → is_used (mark_first n (λ i. 0)) j ≡ ltb j n
unfolding mark_first
mark_first-is_used zero j = no_block j ∙ ground arith
mark_first-is_used (suc n) j =
    ground (arith, get_disk_block-is_used n j (mark_first n (λ i. 0)), mark_first-is_used n j)

-- The blocks in use are the first ones, for a map as long as is needed.
pub init_disk_map-is_used :
    (boot_loader_extra_blocks block_size block_count j : ℕ)
    → is_used (init_disk_map boot_loader_extra_blocks block_size block_count) j
      ≡ ltb j (boot_loader_extra_blocks + map_size block_size block_count)
unfolding init_disk_map
init_disk_map-is_used extra size count j = mark_first-is_used (extra + map_size size count) j

-- The bits of the map are as many as the blocks, rounded up to whole blocks of the map.
map_size_bits :
    (block_size block_count : ℕ)
    → 0 < block_size
    → block_count % 8 ≡ 0
    → (block_count ≤ 8 * (block_size * map_size block_size block_count))
      × (8 * (block_size * map_size block_size block_count) < block_count + 8 * block_size)
unfolding map_size
map_size_bits size count some_block even =
    let bytes = count / 8 in
    let split = div-add-mod bytes size in
    let short = mod-lt bytes some_block in
    elim (Bool-cases (bytes % size == 0)) [
      | inl e ↦
          let exact = ==→eq (bytes % size) 0 e in
          rw e (omega (arith, even, split, exact), omega (arith, even, split, exact))
      | inr e ↦
          let more : bytes % size ≢ 0 = λ z. ground (arith, e, z) in
          let next = add-div_right bytes some_block in
          rw (e, next, mul-add size (bytes / size) 1, mul-one size)
            (omega (arith, even, split, short), omega (arith, even, split, more))
    ]

-- Where blocks are not empty, their number is a multiple of eight, and the extra blocks of the boot
-- loader and the blocks of the map are no more than all blocks: the map has a bit for each block, and
-- is not a whole block longer than it must be; the blocks that are marked have bits in it, and of the
-- disk's blocks they are the first ones, as many as the extra blocks and the blocks of the map
-- together.
pub init_disk_map-Covers :
    (boot_loader_extra_blocks block_size block_count j : ℕ)
    → 0 < block_size
    → block_count % 8 ≡ 0
    → boot_loader_extra_blocks + map_size block_size block_count ≤ block_count
    → j < block_count
    → (block_count ≤ 8 * (block_size * map_size block_size block_count))
      × (8 * (block_size * map_size block_size block_count) < block_count + 8 * block_size)
      × (boot_loader_extra_blocks + map_size block_size block_count
          ≤ 8 * (block_size * map_size block_size block_count))
      × (is_used (init_disk_map boot_loader_extra_blocks block_size block_count) j
          ≡ ltb j (boot_loader_extra_blocks + map_size block_size block_count))
init_disk_map-Covers extra size count j some_block even fits inside =
    let (enough, tight) = map_size_bits size count some_block even in
    (enough, tight, omega (arith, fits, enough), init_disk_map-is_used extra size count j)
