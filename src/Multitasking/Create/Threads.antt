-- ===== src/Multitasking/Create/Threads.antt =====
-- `create_thread` of src/kernel/multitasking.c: the new thread beside the others.
use c4os.Common.{
  ℕ, ◌+◌, ◌≡◌, ◌≢◌, ◌<◌, refl, Bool, Option, none, some, List, [], ◌∷◌, ◌++◌, length, ◌>>=◌, update,
  add32, u32, shl, bit_or, NotIn, ap, minus_one, if◌then◌else◌, ◌∙◌, sym, subst, Ensures, ==_self,
  ==_ne,
}
use c4os.Stdlib.Lists.{Heap, list_append}
use c4os.Stdlib.Lists.Rings.{IsRing, list_append-IsRing}
use c4os.Memory.Window.{Machine, page_present, page_writable, page_user}
use c4os.Memory.Virtual.{AddressSpace}
use c4os.Memory.Virtual.Alloc.{alloc_kernel_pages, alloc_virt_pages}
use c4os.Multitasking.{Tasks, initial_state}
use c4os.Multitasking.Create.{
  System, kernel_page, stack_pages, set_thread, append_item, count_thread, create_thread,
}

module _ {ℓ} {A : Type ℓ} where
  set_self : (f : ℕ → A) (a : ℕ) (v : A) → update f a v a ≡ v
  set_self f a v = rw (==_self a) refl

  set_ne : (f : ℕ → A) (a : ℕ) (v : A) (b : ℕ) → b ≢ a → update f a v b ≡ f b
  set_ne f a v b h = rw (==_ne b a h) refl

-- What the allocations of pages leave.
abbrev kept_of : System → Option (ℕ × System) → Tasks × (ℕ → ℕ)
kept_of sys none = (sys.tasks, sys.thread_count)
kept_of sys (some (a, sys1)) = (sys1.tasks, sys1.thread_count)

kernel_page_keeps :
    (flags : ℕ) (sys : System) → kept_of sys (kernel_page flags sys) ≡ (sys.tasks, sys.thread_count)
unfolding kernel_page
kernel_page_keeps flags sys =
    from (alloc_kernel_pages 0 minus_one 1 flags sys.machine sys.kernel_address_space)
  where
    from :
        (o : Option (ℕ × Machine × AddressSpace))
        → kept_of sys
            (o >>= λ r. some (r.0, record sys { machine = r.1; kernel_address_space = r.2 }))
          ≡ (sys.tasks, sys.thread_count)
    from none = refl
    from (some r) = refl

stack_pages_keeps :
    (process pages : ℕ) (kernel : Bool) (sys : System)
    → kept_of sys (stack_pages process pages kernel sys) ≡ (sys.tasks, sys.thread_count)
unfolding stack_pages
stack_pages_keeps process pages kernel sys = from (
    alloc_virt_pages 0x20_0000 minus_one pages
      (bit_or (bit_or page_present page_writable) (if kernel then 0 else page_user))
      sys.kernel_address_space sys.machine (sys.address_space process))
  where
    from :
        (o : Option (ℕ × AddressSpace × Machine × AddressSpace))
        → kept_of sys (
            o >>= λ r. some (
              r.0,
              record sys {
                kernel_address_space = r.1;
                machine = r.2;
                address_space = update sys.address_space process r.3;
              },
            ))
          ≡ (sys.tasks, sys.thread_count)
    from none = refl
    from (some r) = refl

-- The thread is the last of the ring, with its process, its first registers and its stack; the
-- other threads are as they were.
pub record Created (thread_list : ℕ) (xs : List ℕ) (process entry_point pages : ℕ)
    (kernel suspend : Bool) (thread base : ℕ) (sys : System) (r : ℕ × System) : Type 0 where
  pub result : r.0 ≡ thread
  pub ring : IsRing r.1.tasks.items thread_list (xs ++ thread ∷ [])
  pub of_process : r.1.tasks.process thread ≡ process
  pub suspended : r.1.tasks.thread_suspend thread ≡ suspend
  pub registers : r.1.tasks.state thread ≡ initial_state kernel entry_point base pages
  pub stack : r.1.stack_base thread ≡ base
  pub counted : r.1.thread_count process ≡ add32 (sys.thread_count process) 1
  pub others :
      (j : ℕ)
      → j ≢ thread
      → (r.1.tasks.process j ≡ sys.tasks.process j)
        × (r.1.tasks.thread_suspend j ≡ sys.tasks.thread_suspend j)
        × (r.1.tasks.state j ≡ sys.tasks.state j)

module _ (thread_list process entry_point pages : ℕ) (kernel suspend : Bool) (thread base : ℕ) where
  append-Created :
      (xs : List ℕ) (sys sys2 : System) (items : Heap)
      → sys2.tasks ≡ sys.tasks
      → sys2.thread_count ≡ sys.thread_count
      → IsRing items thread_list (xs ++ thread ∷ [])
      → Created thread_list xs process entry_point pages kernel suspend thread base sys (
        thread,
        count_thread process (
            let set =
              set_thread thread process suspend base
                (u32 (shl pages 12))
                (initial_state kernel entry_point base pages)
                sys2 in
            record set { tasks = record set.tasks { items = items } }),
      )
  unfolding set_thread count_thread
  append-Created xs sys sys2 items e c r =
      let state = initial_state kernel entry_point base pages in
      record {
        result = refl;
        ring = r;
        of_process = set_self sys2.tasks.process thread process;
        suspended = set_self sys2.tasks.thread_suspend thread suspend;
        registers = set_self sys2.tasks.state thread state;
        stack = set_self sys2.stack_base thread base;
        counted =
            set_self sys2.thread_count process (add32 (sys2.thread_count process) 1)
            ∙ ap (λ f. add32 (f process) 1) c;
        others = λ j ne. (
          set_ne sys2.tasks.process thread process j ne ∙ ap (λ t. t.process j) e,
          set_ne sys2.tasks.thread_suspend thread suspend j ne ∙ ap (λ t. t.thread_suspend j) e,
          set_ne sys2.tasks.state thread state j ne ∙ ap (λ t. t.state j) e,
        );
      }

  append_item-Created :
      (xs : List ℕ) (sys sys2 : System) (o : Option Heap)
      → sys2.tasks ≡ sys.tasks
      → sys2.thread_count ≡ sys.thread_count
      → Ensures (λ items. IsRing items thread_list (xs ++ thread ∷ [])) o
      → Ensures (Created thread_list xs process entry_point pages kernel suspend thread base sys) (
          (o >>= (λ items.
            let set =
              set_thread thread process suspend base
                (u32 (shl pages 12))
                (initial_state kernel entry_point base pages)
                sys2 in
            some (record set { tasks = record set.tasks { items = items } })))
          >>= (λ sys3. some (thread, count_thread process sys3)))
  append_item-Created xs sys sys2 none e c h = h
  append_item-Created xs sys sys2 (some items) e c h = append-Created xs sys sys2 items e c h

  -- If the allocator gives a page for the thread that is not the null pointer, is none of the
  -- threads, and is in no list, and then a stack, `create_thread` succeeds: the new thread is the
  -- last of the ring of threads, with its process, flag, stack and first registers, its process has
  -- one thread more, and the other threads are as they were.
  pub create_thread-Created :
      (xs : List ℕ) (sys sys1 sys2 : System)
      → IsRing sys.tasks.items thread_list xs
      → kernel_page (bit_or page_present page_writable) sys ≡ some (thread, sys1)
      → stack_pages process pages kernel sys1 ≡ some (base, sys2)
      → NotIn thread xs
      → thread ≢ 0
      → sys.tasks.items.list thread ≡ 0
      → length xs + 1 < 0x1_0000_0000
      → Ensures
          (Created thread_list xs process entry_point pages kernel suspend thread base sys)
          (create_thread thread_list process entry_point pages kernel suspend sys)
  unfolding create_thread append_item set_thread
  create_thread-Created xs sys sys1 sys2 r a b n nz free few =
      let one =
        sym (ap (kept_of sys) a) ∙ kernel_page_keeps (bit_or page_present page_writable) sys in
      let two = sym (ap (kept_of sys1) b) ∙ stack_pages_keeps process pages kernel sys1 in
      let same = two ∙ one in
      let tasks = ap (λ p. p.0) same in
      rw (a, b)
        (append_item-Created xs sys sys2 (list_append thread_list thread sys2.tasks.items) tasks
          (ap (λ p. p.1) same)
          (subst
            (λ t.
              Ensures (λ items. IsRing items thread_list (xs ++ thread ∷ []))
                (list_append thread_list thread t.items))
            (sym tasks) (list_append-IsRing sys.tasks.items thread_list thread xs r n nz free few)))
