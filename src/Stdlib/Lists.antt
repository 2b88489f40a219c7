-- ===== src/Stdlib/Lists.antt =====
-- The intrusive lists of src/lib/stdlib.c (`list_init`, `list_append`, `list_remove`) on an
-- explicit heap. Each field of `List` and `ListItem` (src/include/stdlib.h) is a function of the
-- address of the structure; the null pointer is 0.
pub mod Rings
use c4os.Common.{
  ℕ, ◌+◌, ◌≡◌, Bool, true, false, Option, none, some, ◌==◌, if◌then◌else◌, ◌>>=◌, update, add32,
  sub32,
}
use c4os.Stdlib.Mutex.{mutex_get, mutex_release}

pub record Heap : Type 0 where
  -- `ListItem`
  pub next : ℕ → ℕ
  pub prev : ℕ → ℕ
  pub list : ℕ → ℕ
  -- `List`
  pub first : ℕ → ℕ
  pub count : ℕ → ℕ
  pub mutex : ℕ → Bool

abbrev pub set_next : ℕ → ℕ → Heap → Heap
set_next a v h = record h { next = update h.next a v }

abbrev pub set_prev : ℕ → ℕ → Heap → Heap
set_prev a v h = record h { prev = update h.prev a v }

abbrev pub set_list : ℕ → ℕ → Heap → Heap
set_list a v h = record h { list = update h.list a v }

abbrev pub set_first : ℕ → ℕ → Heap → Heap
set_first a v h = record h { first = update h.first a v }

abbrev pub set_count : ℕ → ℕ → Heap → Heap
set_count a v h = record h { count = update h.count a v }

abbrev pub set_mutex : ℕ → Bool → Heap → Heap
set_mutex a v h = record h { mutex = update h.mutex a v }

unfoldable pub list_init : ℕ → Heap → Heap
list_init l h = set_mutex l false (set_count l 0 (set_first l 0 h))

-- `mutex_get(&(list->mutex), true)`
unfoldable pub lock : ℕ → Heap → Option Heap
unfolding mutex_get
lock l h = do (_, m) ← mutex_get (h.mutex l) true; some (set_mutex l m h)

-- `mutex_release(&(list->mutex))`
unfoldable pub release : ℕ → Heap → Heap
unfolding mutex_release
release l h = set_mutex l (mutex_release (h.mutex l)) h

-- The two branches of `list_append` under the lock.
unfoldable pub append_behind : ℕ → ℕ → Heap → Heap
append_behind l item h0 =
    let h1 = set_list item l h0 in
    let h2 = set_next item (h1.first l) h1 in
    let h3 = set_prev item (h2.prev (h2.first l)) h2 in
    let h4 = set_next (h3.prev item) item h3 in set_prev (h4.next item) item h4

unfoldable pub append_only : ℕ → ℕ → Heap → Heap
append_only l item h = set_first l item (set_prev item item (set_next item item h))

unfoldable pub attach : ℕ → ℕ → Heap → Heap
attach l item h = if h.first l == 0 then append_only l item h else append_behind l item h

unfoldable pub list_append : ℕ → ℕ → Heap → Option Heap
unfolding lock release
list_append l item h =
    if h.list item == 0
    then (do
      h1 ← lock l h
      let h2 = attach l item h1
      let h3 = set_count l (add32 (h2.count l) 1) h2
      some (release l h3))
    else some h

-- The head of the list moves on if it is the item, and is gone if it is the only one.
unfoldable pub remove_first : ℕ → Heap → Heap
remove_first item h =
    let l = h.list item in
    if h.first l == item
    then (let h1 = set_first l (h.next item) h in
        if h1.first l == item then set_first l 0 h1 else h1)
    else h

-- The neighbours of the item are joined.
unfoldable pub unlink : ℕ → Heap → Heap
unlink item h0 =
    let h1 = set_prev (h0.next item) (h0.prev item) h0 in set_next (h1.prev item) (h1.next item) h1

-- A null `item->list` is dereferenced: `none`.
unfoldable pub list_remove : ℕ → Heap → Option Heap
unfolding lock release
list_remove item h = if h.list item == 0 then none else (do
  h1 ← lock (h.list item) h
  let h2 = remove_first item h1
  let h3 = unlink item h2
  let h4 = set_count (h3.list item) (sub32 (h3.count (h3.list item)) 1) h3
  some (release (h4.list item) h4))
