-- ===== src/Ring/Links.antt =====
-- A ring that is held by a pointer to its first node, and the null pointer for no node.
use mathlib.Core.Logic.{◌≢◌}
use c4os.Common.{
  ℕ, ◌≡◌, List, [], ◌∷◌, ◌++◌, sym, ◌∙◌, update, Distinct, NotIn-of_append, if◌then◌else◌, ◌==◌,
  All, All-of_append, arith,
}
use c4os.Ring.{Linked, Linked-of_append, last, prev-last, Linked-remove, Linked-remove_head}

abbrev pub head_or : ℕ → List ℕ → ℕ
head_or p [] = p
head_or p (x ∷ xs) = x

-- Where the pointer is after the node `y` has been taken out.
abbrev pub moved : ℕ → ℕ → (ℕ → ℕ) → ℕ → ℕ
moved null first next y = if first == y then (if next y == y then null else next y) else first

module _ (null first : ℕ) (next prev : ℕ → ℕ) where
  abbrev pub Links : List ℕ → Type 0
  Links [] = first ≡ null
  Links (x ∷ xs) = (first ≡ x) × Linked next prev x xs x

  Linked-next :
      (p : ℕ) (us : List ℕ) (a : ℕ) (vs : List ℕ) (s : ℕ)
      → Linked next prev p (us ++ a ∷ vs) s
      → next a ≡ head_or s vs
  Linked-next p [] a [] s h = h.2.0
  Linked-next p [] a (v ∷ vs) s h = h.2.0
  Linked-next p (u ∷ us) a vs s h = Linked-next u us a vs s h.2

  -- The node after `a`: the next one of the list, or the first.
  pub Links-next :
      (us : List ℕ) (a : ℕ) (vs : List ℕ) → Links (us ++ a ∷ vs) → next a ≡ head_or first vs
  Links-next [] a [] h = h.1.0 ∙ sym h.0
  Links-next [] a (v ∷ vs) h = h.1.0
  Links-next (u ∷ us) a [] h = Linked-next u us a [] u h.1 ∙ sym h.0
  Links-next (u ∷ us) a (v ∷ vs) h = Linked-next u us a (v ∷ vs) u h.1

  Linked-back :
      (p : ℕ) (us : List ℕ) (a b : ℕ) (vs : List ℕ) (s : ℕ)
      → Linked next prev p (us ++ a ∷ b ∷ vs) s
      → prev b ≡ a
  Linked-back p [] a b vs s h = h.2.1
  Linked-back p (u ∷ us) a b vs s h = Linked-back u us a b vs s h.2

  -- The node before the one behind `a` is `a`.
  pub Links-back : (us : List ℕ) (a b : ℕ) (vs : List ℕ) → Links (us ++ a ∷ b ∷ vs) → prev b ≡ a
  Links-back [] a b vs h = h.1.1
  Links-back (u ∷ us) a b vs h = Linked-back u us a b vs u h.1

  -- The node behind another is not the first.
  pub behind-ne :
      (us : List ℕ) (a b : ℕ) (vs : List ℕ)
      → Links (us ++ a ∷ b ∷ vs)
      → Distinct (us ++ a ∷ b ∷ vs)
      → b ≢ first
  behind-ne [] a b vs h d e = d.0.0 (sym (e ∙ h.0))
  behind-ne (u ∷ us) a b vs h d e = (NotIn-of_append u us (a ∷ b ∷ vs) d.0).1.1.0 (sym (e ∙ h.0))

  -- So the node after `a` is one of the ring.
  pub Links-next_All :
      (P : ℕ → Type 0) (us : List ℕ) (a : ℕ) (vs : List ℕ)
      → Links (us ++ a ∷ vs)
      → All P (us ++ a ∷ vs)
      → P (next a)
  Links-next_All P [] a [] h k = rw h.1.0 k.0
  Links-next_All P [] a (v ∷ vs) h k = rw h.1.0 k.1.0
  Links-next_All P (u ∷ us) a [] h k = rw (Linked-next u us a [] u h.1) k.0
  Links-next_All P (u ∷ us) a (v ∷ vs) h k =
      rw (Linked-next u us a (v ∷ vs) u h.1) (All-of_append P us (a ∷ v ∷ vs) k.1).1.1.0

  last-All : (P : ℕ → Type 0) (p : ℕ) (xs : List ℕ) → P p → All P xs → P (last p xs)
  last-All P p [] h k = h
  last-All P p (x ∷ xs) h k = last-All P x xs k.0 k.1

  -- The node before `a` is one of the ring.
  pub Links-prev :
      (P : ℕ → Type 0) (us : List ℕ) (a : ℕ) (vs : List ℕ)
      → Links (us ++ a ∷ vs)
      → All P (us ++ a ∷ vs)
      → P (prev a)
  Links-prev P [] a vs h k = rw (prev-last next prev a vs a h.1) (last-All P a vs k.0 k.1)
  Links-prev P (u ∷ us) a vs h k =
      rw (prev-last next prev u us a (Linked-of_append next prev u us a vs u h.1).0)
        (last-All P u us k.0 (All-of_append P us (a ∷ vs) k.1).0)

-- A node taken out: its neighbours are joined, and the pointer moves on if it was the first.
pub Links-remove :
    (null first : ℕ) (next prev : ℕ → ℕ) (us : List ℕ) (y : ℕ) (vs : List ℕ)
    → Links null first next prev (us ++ y ∷ vs)
    → Distinct (us ++ y ∷ vs)
    → Links null
        (moved null first next y)
        (update next (prev y) (next y))
        (update prev (next y) (prev y))
        (us ++ vs)
Links-remove null first next prev [] y [] k d = ground arith
Links-remove null first next prev [] y (z ∷ zs) k d =
    (ground arith, Linked-remove_head next prev y z zs d k.1)
Links-remove null first next prev (x ∷ us) y vs k d =
    let (_, n) = NotIn-of_append x us (y ∷ vs) d.0 in
    (ground arith, Linked-remove next prev x us y vs d k.1)
