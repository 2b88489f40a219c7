-- ===== src/Tests/Lists.antt =====
-- The functions of src/lib/stdlib.c at concrete lists and texts.
use c4os.Common.{◌+◌, update, ◌∷◌, [], ◌==◌, if◌then◌else◌, ◌||◌, ◌≡◌, refl, arith, false, Ensures}
use c4os.Stdlib.Lists.{Heap, list_append, list_remove}
use c4os.Stdlib.Lists.Rings.{IsRing, list_append-IsRing, list_remove-IsRing}
use c4os.Stdlib.Bytes.{atoi, isspace, isdigit, skip_spaces, sign, digits_loop, memcpy}
use c4os.Stdlib.Strings.{strncpy}
use c4os.Stdlib.Strings.Wraps.{strncpy_copies}

-- The list at 5 holds the items 10 and 20; the item 30 is in no list.
abbrev pub two_items : Heap
two_items = record {
  next = λ a. if a == 10 then 20 else 10;
  prev = λ a. if a == 10 then 20 else 10;
  list = λ a. if a == 10 || a == 20 then 5 else 0;
  first = λ l. 10;
  count = λ l. 2;
  mutex = λ l. false;
}

pub two_items-IsRing : IsRing two_items 5 (10 ∷ 20 ∷ [])
two_items-IsRing = record {
  links = (refl, (refl, refl, (refl, refl)));
  distinct = ((λ e. omega arith, tt), (tt, tt));
  not_null = (λ e. omega arith, (λ e. omega arith, tt));
  counted = refl;
  unlocked = refl;
}

list_append-IsRing_example :
    Ensures (λ h. IsRing h 5 (10 ∷ 20 ∷ 30 ∷ [])) (list_append 5 30 two_items)
list_append-IsRing_example =
    list_append-IsRing two_items 5 30 (10 ∷ 20 ∷ []) two_items-IsRing
      (λ e. omega arith, (λ e. omega arith, tt)) (λ e. omega arith) refl (omega arith)

list_remove-IsRing_example : Ensures (λ h. IsRing h 5 (20 ∷ [])) (list_remove 10 two_items)
list_remove-IsRing_example =
    list_remove-IsRing two_items 5 10 [] (20 ∷ []) two_items-IsRing refl (λ e. omega arith)
      (omega arith)

-- " 42x"
atoi_42 : atoi (b' ' ∷ b'4' ∷ b'2' ∷ b'x' ∷ []) ≡ 42
unfolding atoi isspace isdigit skip_spaces sign digits_loop
atoi_42 = refl

-- "kernel" at 0x100, in a name of 256 characters at 0x2000; the search stops at the 0 behind the text.
strncpy_copies_example :
    strncpy (λ cells mem value count. mem + 6) 0x2000 0x100 256 (λ a. a)
    ≡ update (memcpy 0x2000 0x100 255 (λ a. a)) (0x2000 + 255) 0
strncpy_copies_example =
    strncpy_copies (λ cells mem value count. mem + 6) 0x2000 0x100 256 (λ a. a) (omega arith)
      (omega arith) (omega arith) (omega arith)
