-- ===== src/Ring.antt =====
-- Circular doubly linked lists. The process and thread lists (src/lib/stdlib.c) are such rings, and
-- so is the list of free blocks (src/kernel/memory_manager.c). A node is an address; `next` and
-- `prev` are the two link fields as functions of the address.
pub mod Links
use native.Mathlib.Omega.{arith}
use mathlib.Core.Logic.{◌≢◌}
use mathlib.Core.List.{append-nil}
use c4os.Common.{ℕ, ◌≡◌, List, [], ◌∷◌, ◌++◌, sym, ◌∙◌, update, NotIn, Distinct, Distinct-rotate}

-- From `p` the links lead through the nodes `xs` to `s`, in both directions. A ring that begins
-- at `x` and goes on with `xs` is `Linked next prev x xs x`.
abbrev pub Linked : (ℕ → ℕ) → (ℕ → ℕ) → ℕ → List ℕ → ℕ → Type 0
Linked next prev p [] s = (next p ≡ s) × (prev s ≡ p)
Linked next prev p (x ∷ xs) s = (next p ≡ x) × (prev x ≡ p) × Linked next prev x xs s

abbrev pub last : ℕ → List ℕ → ℕ
last p [] = p
last p (x ∷ xs) = last x xs

pub update_self : (f : ℕ → ℕ) (a v : ℕ) → update f a v a ≡ v
update_self f a v = ground arith

pub update_ne : (f : ℕ → ℕ) (a v b : ℕ) → b ≢ a → update f a v b ≡ f b
update_ne f a v b h = ground arith

pub last-NotIn : (a p : ℕ) (xs : List ℕ) → NotIn a (p ∷ xs) → a ≢ last p xs
last-NotIn a p [] h = h.0
last-NotIn a p (x ∷ xs) h = last-NotIn a x xs h.1

module _ (next prev : ℕ → ℕ) where
  -- The node before the end is the last one.
  pub prev-last : (p : ℕ) (xs : List ℕ) (s : ℕ) → Linked next prev p xs s → prev s ≡ last p xs
  prev-last p [] s h = h.1
  prev-last p (x ∷ xs) s h = prev-last x xs s h.2

  pub Linked-append :
      (p : ℕ) (xs : List ℕ) (y : ℕ) (ys : List ℕ) (s : ℕ)
      → Linked next prev p xs y
      → Linked next prev y ys s
      → Linked next prev p (xs ++ y ∷ ys) s
  Linked-append p [] y ys s h k = (h.0, h.1, k)
  Linked-append p (x ∷ xs) y ys s h k = (h.0, h.1, Linked-append x xs y ys s h.2 k)

  pub Linked-of_append :
      (p : ℕ) (xs : List ℕ) (y : ℕ) (ys : List ℕ) (s : ℕ)
      → Linked next prev p (xs ++ y ∷ ys) s
      → Linked next prev p xs y × Linked next prev y ys s
  Linked-of_append p [] y ys s h = ((h.0, h.1), h.2)
  Linked-of_append p (x ∷ xs) y ys s h =
      let (a, b) = Linked-of_append x xs y ys s h.2 in ((h.0, h.1, a), b)

  -- A ring may begin at any of its nodes.
  pub Linked-rotate :
      (x : ℕ) (us : List ℕ) (y : ℕ) (vs : List ℕ)
      → Linked next prev x (us ++ y ∷ vs) x
      → Linked next prev y (vs ++ x ∷ us) y
  Linked-rotate x us y vs h =
      let (a, b) = Linked-of_append x us y vs x h in Linked-append y vs x us y b a

  -- A `next` field of a node elsewhere.
  pub Linked-next :
      (a v p : ℕ) (xs : List ℕ) (s : ℕ)
      → NotIn a (p ∷ xs)
      → Linked next prev p xs s
      → Linked (update next a v) prev p xs s
  Linked-next a v p [] s n h = (update_ne next a v p (λ e. n.0 (sym e)) ∙ h.0, h.1)
  Linked-next a v p (x ∷ xs) s n h =
      (update_ne next a v p (λ e. n.0 (sym e)) ∙ h.0, h.1, Linked-next a v x xs s n.1 h.2)

  -- A `prev` field of a node elsewhere.
  pub Linked-prev :
      (a v p : ℕ) (xs : List ℕ) (s : ℕ)
      → NotIn a xs
      → a ≢ s
      → Linked next prev p xs s
      → Linked next (update prev a v) p xs s
  Linked-prev a v p [] s n ne h = (h.0, update_ne prev a v s (λ e. ne (sym e)) ∙ h.1)
  Linked-prev a v p (x ∷ xs) s n ne h =
      (h.0, update_ne prev a v x (λ e. n.0 (sym e)) ∙ h.1, Linked-prev a v x xs s n.1 ne h.2)

  -- The last link turned to another end, `t`.
  pub Linked-retarget :
      (p : ℕ) (xs : List ℕ) (s t : ℕ)
      → Distinct (p ∷ xs)
      → NotIn t xs
      → Linked next prev p xs s
      → Linked (update next (last p xs) t) (update prev t (last p xs)) p xs t
  Linked-retarget p [] s t d n h = (update_self next p t, update_self prev t p)
  Linked-retarget p (x ∷ xs) s t d n h = (
    update_ne next (last x xs) t p (last-NotIn p x xs d.0) ∙ h.0,
    update_ne prev t (last x xs) x (λ e. n.0 (sym e)) ∙ h.1,
    Linked-retarget x xs s t d.1 n.1 h.2,
  )

  -- The node at the head of a ring taken out: its neighbours are joined.
  pub Linked-unlink :
      (y z : ℕ) (zs : List ℕ)
      → Distinct (y ∷ z ∷ zs)
      → Linked next prev y (z ∷ zs) y
      → Linked (update next (last z zs) z) (update prev z (last z zs)) z zs z
  Linked-unlink y z zs d h = Linked-retarget z zs y z d.1 d.1.0 h.2

-- A node put in behind the last: its own fields are written first, then those of its neighbours.
pub Linked-insert :
    (next prev : ℕ → ℕ) (p : ℕ) (xs : List ℕ) (i : ℕ)
    → Distinct (p ∷ xs)
    → NotIn i (p ∷ xs)
    → Linked next prev p xs p
    → let n = update (update next i p) (last p xs) i in
      let b = update (update prev i (last p xs)) p i in Linked n b p (xs ++ i ∷ []) p
Linked-insert next prev p xs i d n h =
    Linked-append n' b' p xs i [] p
      (Linked-prev n' (update prev i l) p i p xs i d.0 (λ e. n.0 (sym e))
        (Linked-retarget (update next i p) prev p xs p i d n.1
          (Linked-next next prev i p p xs p n h)))
      (
        update_ne (update next i p) l i i (last-NotIn i p xs n) ∙ update_self next i p,
        update_self (update prev i l) p i,
      )
  where
    l : ℕ
    l = last p xs

    n' : ℕ → ℕ
    n' = update (update next i p) l i

    b' : ℕ → ℕ
    b' = update (update prev i l) p i

-- A node at the head of a ring that another node takes the place of.
pub Linked-replace :
    (next prev : ℕ → ℕ) (y z : ℕ) (zs : List ℕ) (i : ℕ)
    → Distinct (y ∷ z ∷ zs)
    → NotIn i (y ∷ z ∷ zs)
    → Linked next prev y (z ∷ zs) y
    → let n = update (update next (last z zs) i) i z in
      let b = update (update prev z i) i (last z zs) in Linked n b i (z ∷ zs) i
Linked-replace next prev y z zs i d n_i h = (
  update_self (update next l i) i z,
  update_ne (update prev z i) i l z (λ e. n_i.1.0 (sym e)) ∙ update_self prev z i,
  Linked-next n b' i z z zs i n_i.1 (
      Linked-retarget next (update prev z i) z zs y i d.1 n_i.1.1
        (Linked-prev next prev z i z zs y d.1.0 (λ e. d.0.0 (sym e)) h.2)),
)
  where
    l : ℕ
    l = last z zs

    n : ℕ → ℕ
    n = update next l i

    b' : ℕ → ℕ
    b' = update (update prev z i) i l

module _ (next prev : ℕ → ℕ) where
  -- The head of a ring of several nodes taken out, with the writes spelled by its own links.
  pub Linked-remove_head :
      (y z : ℕ) (zs : List ℕ)
      → Distinct (y ∷ z ∷ zs)
      → Linked next prev y (z ∷ zs) y
      → Linked (update next (prev y) (next y)) (update prev (next y) (prev y)) z zs z
  Linked-remove_head y z zs d h =
      rw (h.0, prev-last next prev z zs y h.2) (Linked-unlink next prev y z zs d h)

  -- A node that is not the head taken out.
  pub Linked-remove :
      (x : ℕ) (us : List ℕ) (y : ℕ) (vs : List ℕ)
      → Distinct (x ∷ us ++ y ∷ vs)
      → Linked next prev x (us ++ y ∷ vs) x
      → Linked (update next (prev y) (next y)) (update prev (next y) (prev y)) x (us ++ vs) x
  Linked-remove x us y [] d h = rw (append-nil us) (
      Linked-remove_head y x us (Distinct-rotate (x ∷ us) (y ∷ []) d)
        (Linked-rotate next prev x us y [] h))
  Linked-remove x us y (z ∷ vs) d h =
      Linked-rotate (update next (prev y) (next y)) (update prev (next y) (prev y)) z vs x us (
        Linked-remove_head y z (vs ++ x ∷ us) (Distinct-rotate (x ∷ us) (y ∷ z ∷ vs) d)
          (Linked-rotate next prev x us y (z ∷ vs) h))
