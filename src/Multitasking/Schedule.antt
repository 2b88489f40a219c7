-- ===== src/Multitasking/Schedule.antt =====
-- `switch_task` of src/kernel/multitasking.c goes round the ring of threads.
use c4os.Common.{
  ℕ, zero, suc, ◌<◌, ◌≡◌, refl, arith, true, false, All, Option, none, some, List, [], ◌∷◌, ◌++◌,
  length, Bool-cases, inl, inr, if◌then◌else◌,
}
use c4os.Ring.{Linked}
use c4os.Multitasking.{Tasks, is_suspended, next_thread, max_threads}

-- The first of the threads that may run.
unfoldable pub first_ready : Tasks → List ℕ → Option ℕ
first_ready t [] = none
first_ready t (x ∷ xs) = if is_suspended t x then first_ready t xs else some x

-- Behind threads that are asleep.
pub first_ready-behind :
    (t : Tasks) (xs : List ℕ) (r : ℕ) (ys : List ℕ)
    → All (λ x. is_suspended t x ≡ true) xs
    → is_suspended t r ≡ false
    → first_ready t (xs ++ r ∷ ys) ≡ some r
unfolding first_ready
first_ready-behind t [] r ys a e = rw e refl
first_ready-behind t (x ∷ xs) r ys a e = rw (a.0) (first_ready-behind t xs r ys a.1 e)

-- With more behind.
pub first_ready-before :
    (t : Tasks) (xs : List ℕ) (r : ℕ) (ys zs : List ℕ)
    → All (λ x. is_suspended t x ≡ true) xs
    → is_suspended t r ≡ false
    → first_ready t ((xs ++ r ∷ ys) ++ zs) ≡ some r
unfolding first_ready
first_ready-before t [] r ys zs a e = rw e refl
first_ready-before t (x ∷ xs) r ys zs a e = rw (a.0) (first_ready-before t xs r ys zs a.1 e)

-- Being asleep hangs on three fields.
pub same_asleep :
    (t u : Tasks) (x : ℕ)
    → u.process ≡ t.process
    → u.thread_suspend ≡ t.thread_suspend
    → u.process_suspend ≡ t.process_suspend
    → is_suspended u x ≡ is_suspended t x
unfolding is_suspended
same_asleep t u x p q r = rw (p, q, r) refl

next_thread-first_ready :
    (fuel : ℕ) (t : Tasks) (p : ℕ) (xs : List ℕ) (s r : ℕ)
    → Linked t.items.next t.items.prev p xs s
    → length xs < fuel
    → first_ready t (xs ++ s ∷ []) ≡ some r
    → next_thread fuel t p ≡ some r
unfolding next_thread first_ready
next_thread-first_ready zero t p xs s r l f e = absurd (omega arith)
next_thread-first_ready (suc fuel) t p [] s r l f e = rw l.0 (elim (Bool-cases (is_suspended t s)) [
  | inl asleep ↦ absurd (ground (arith, asleep))
  | inr awake ↦ rw awake (rw awake at e)
])
next_thread-first_ready (suc fuel) t p (x ∷ xs) s r l f e =
    rw l.0 (elim (Bool-cases (is_suspended t x)) [
      | inl asleep ↦
          rw asleep (next_thread-first_ready fuel t x xs s r l.2 (omega arith) (rw asleep at e))
      | inr awake ↦ rw awake (rw awake at e)
    ])

-- In a ring of fewer than 2 ^ 20 threads beside the current one, of which some thread may run, the
-- scheduler takes the first that may, the current one being the last that it looks at.
pub next_thread_lem :
    (t : Tasks) (xs : List ℕ) (r : ℕ)
    → Linked t.items.next t.items.prev t.current_thread xs t.current_thread
    → length xs < max_threads
    → first_ready t (xs ++ t.current_thread ∷ []) ≡ some r
    → next_thread max_threads t t.current_thread ≡ some r
next_thread_lem t xs r l f e =
    next_thread-first_ready max_threads t t.current_thread xs t.current_thread r l f e
