-- ===== src/Stdlib/Lists/Rings.antt =====
-- The lists of src/lib/stdlib.c are rings: what `list_append` and `list_remove` do to one.
use c4os.Common.{
  ℕ, ◌+◌, ◌<◌, ◌≡◌, ◌≢◌, refl, true, false, List, [], ◌∷◌, ◌++◌, arith, length, NotIn, Distinct,
  Ensures, update, length-append, suc, sub32, Distinct-remove, NotIn-remove, ==_ne, ◌==◌,
  if◌then◌else◌, NotIn-append, sym, Distinct-snoc,
}
use c4os.Ring.{update_self, prev-last, Linked-insert}
use c4os.Ring.Links.{Links, moved, Links-remove}
use c4os.Stdlib.Lists.{
  Heap, list_append, list_remove, append_behind, append_only, attach, set_mutex, unlink,
  remove_first, release, set_count,
}

-- `l` is an unlocked list of the items `xs`, in order from `first`.
pub record IsRing (h : Heap) (l : ℕ) (xs : List ℕ) : Type 0 where
  pub links : Links 0 (h.first l) h.next h.prev xs
  pub distinct : Distinct xs
  pub not_null : NotIn 0 xs
  pub counted : h.count l ≡ length xs
  pub unlocked : h.mutex l ≡ false

-- The links that the branch for a list with a first item leaves.
module _ (h : Heap) (l item x : ℕ) (e : h.first l ≡ x) (ne : item ≢ x) where
  append_behind-next : (append_behind l item h).next ≡ update (update h.next item x) (h.prev x) item
  unfolding append_behind
  append_behind-next = rw (e, update_self h.prev item (h.prev x))

  append_behind-prev : (append_behind l item h).prev ≡ update (update h.prev item (h.prev x)) x item
  unfolding append_behind
  append_behind-prev = ground (arith, e)

append_behind-first :
    (h : Heap) (l item x : ℕ) → h.first l ≡ x → item ≢ x → (append_behind l item h).first l ≡ x
unfolding append_behind
append_behind-first h l item x e ne = e

-- What a branch of `list_append` keeps of the list's own fields.
attach-fields :
    (h : Heap) (l item m : ℕ)
    → ((attach l item h).count m ≡ h.count m) × ((attach l item h).mutex m ≡ h.mutex m)
unfolding attach append_behind append_only
attach-fields h l item m = ground arith

attach-Links :
    (h : Heap) (l item : ℕ) (xs : List ℕ)
    → Links 0 (h.first l) h.next h.prev xs
    → Distinct xs
    → NotIn 0 xs
    → NotIn item xs
    → let g = attach l item h in Links 0 (g.first l) g.next g.prev (xs ++ item ∷ [])
unfolding attach append_only
attach-Links h l item [] k d z n = ground arith
attach-Links h l item (x ∷ xs) k d z n =
    rw
      (
        behind,
        append_behind-next h l item x k.0 n.0,
        append_behind-prev h l item x k.0 n.0,
        prev-last h.next h.prev x xs x k.1,
      )
      (append_behind-first h l item x k.0 n.0, Linked-insert h.next h.prev x xs item d n k.1)
  where
    behind :
        (if h.first l == 0 then append_only l item h else append_behind l item h)
        ≡ append_behind l item h
    behind = ground (arith, k.0, z.0)

-- An item that is not null, whose field `list` is null, and that is not among those of an unlocked
-- list of fewer than 2 ^ 32 - 1 items, becomes the last item of the list, whose lock is free again
-- afterwards and whose count is right.
pub list_append-IsRing :
    (h : Heap) (l item : ℕ) (xs : List ℕ)
    → IsRing h l xs
    → NotIn item xs
    → item ≢ 0
    → h.list item ≡ 0
    → length xs + 1 < 0x1_0000_0000
    → Ensures (λ h'. IsRing h' l (xs ++ item ∷ [])) (list_append l item h)
unfolding list_append
list_append-IsRing h l item xs r n ne o b =
    rw (o, r.unlocked)
      (record {
        links = attach-Links (set_mutex l true h) l item xs r.links r.distinct r.not_null n;
        distinct = Distinct-snoc item xs n r.distinct;
        not_null = NotIn-append 0 xs (item ∷ []) r.not_null (λ e. ne (sym e), tt);
        counted = ground (
          arith,
          attach-fields (set_mutex l true h) l item l,
          r.counted,
          length-append xs (item ∷ []),
        );
        unlocked = ground arith;
      })

unlink-next : (h : Heap) (y : ℕ) → (unlink y h).next ≡ update h.next (h.prev y) (h.next y)
unfolding unlink
unlink-next h y = ground arith

unlink-fields :
    (h : Heap) (y : ℕ)
    → ((unlink y h).prev ≡ update h.prev (h.next y) (h.prev y))
      × ((unlink y h).first ≡ h.first)
      × ((unlink y h).count ≡ h.count)
      × ((unlink y h).list ≡ h.list)
      × ((unlink y h).mutex ≡ h.mutex)
unfolding unlink
unlink-fields h y = (refl, refl, refl, refl, refl)

remove_first-fields :
    (h : Heap) (y : ℕ)
    → ((remove_first y h).next ≡ h.next)
      × ((remove_first y h).prev ≡ h.prev)
      × ((remove_first y h).count ≡ h.count)
      × ((remove_first y h).list ≡ h.list)
      × ((remove_first y h).mutex ≡ h.mutex)
unfolding remove_first
remove_first-fields h y = ground arith

-- The head afterwards.
remove_first-moved :
    (h : Heap) (l y : ℕ) → h.list y ≡ l → (remove_first y h).first l ≡ moved 0 (h.first l) h.next y
unfolding remove_first
remove_first-moved h l y o = ground arith

-- The fields after both, from those before.
detach-fields :
    (h : Heap) (y : ℕ)
    → let g = unlink y (remove_first y h) in
      (g.next ≡ update h.next (h.prev y) (h.next y))
      × (g.prev ≡ update h.prev (h.next y) (h.prev y))
      × (g.first ≡ (remove_first y h).first)
      × (g.count ≡ h.count)
      × (g.list ≡ h.list)
detach-fields h y = ground (
  arith,
  unlink-next (remove_first y h) y,
  unlink-fields (remove_first y h) y,
  remove_first-fields h y,
)

-- The count and the mutex are written last.
finish-IsRing :
    (g : Heap) (l item : ℕ) (ys : List ℕ)
    → g.list item ≡ l
    → Links 0 (g.first l) g.next g.prev ys
    → Distinct ys
    → NotIn 0 ys
    → g.count l ≡ suc (length ys)
    → suc (length ys) < 0x1_0000_0000
    → let f = set_count (g.list item) (sub32 (g.count (g.list item)) 1) g in
      IsRing (release (f.list item) f) l ys
unfolding release
finish-IsRing g l item ys o k d z c b = rw o (record {
  links = k;
  distinct = d;
  not_null = z;
  counted = ground arith;
  unlocked = ground arith;
})

-- An item whose field `list` names the unlocked list that it is in, of fewer than 2 ^ 32 items and
-- not at the null address, leaves that list, wherever it stands; the others keep their order, the
-- lock is free again and the count is right.
pub list_remove-IsRing :
    (h : Heap) (l item : ℕ) (us vs : List ℕ)
    → IsRing h l (us ++ item ∷ vs)
    → h.list item ≡ l
    → l ≢ 0
    → length (us ++ item ∷ vs) < 0x1_0000_0000
    → Ensures (λ h'. IsRing h' l (us ++ vs)) (list_remove item h)
unfolding list_remove
list_remove-IsRing h l item us vs r o ne b =
    rw (o, ==_ne l 0 ne, r.unlocked)
      (finish-IsRing (unlink item (remove_first item locked)) l item (us ++ vs)
        (rw (detach-fields locked item).4 o)
        (rw
          (
            (detach-fields locked item).0,
            (detach-fields locked item).1,
            (detach-fields locked item).2,
          )
          (rw (remove_first-moved locked l item o)
            (Links-remove 0 (h.first l) h.next h.prev us item vs r.links r.distinct)))
        (Distinct-remove us item vs r.distinct) (NotIn-remove 0 us item vs r.not_null)
        (rw (detach-fields locked item).3
          (omega (arith, r.counted, length-append us (item ∷ vs), length-append us vs)))
        (omega (arith, length-append us (item ∷ vs), length-append us vs)))
  where
    locked : Heap
    locked = set_mutex l true h
