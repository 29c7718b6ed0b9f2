-- ===== src/Boot/Task.antt =====
-- init/main.c: what one round of the loop of `init_pcb` makes.
use ucas_oslab_project.Common.{
  ℕ, zero, suc, ◌+◌, ◌*◌, ◌%◌, ◌^◌, ◌≤◌, ◌<◌, ◌≡◌, ◌≢◌, refl, ap, ◌∙◌, ◌==◌, ◌⊎◌, inl, false, List,
  [], ◌∷◌, ◌++◌, arith, has, has_ne, has-append,
}
use ucas_oslab_project.LinkedList.{Ptr, init_list_head, list_add_tail}
use ucas_oslab_project.LinkedList.Chain.{
  IsRing, IsRing-frame, SameOutside, SameOutside-trans, SameOutside-mono,
}
use ucas_oslab_project.LinkedList.Grow.{init_list_head-SameOutside, list_add_tail-IsRing}
use ucas_oslab_project.Kernel.{task_ready, Pcb, Machine, Kernel, list_of, thread_group_of}
use ucas_oslab_project.Memory.{page_size}
use ucas_oslab_project.Memory.Pages.{kernel-exact, user-exact}
use ucas_oslab_project.Threads.{store_switchto, sr_spie}
use ucas_oslab_project.Boot.{Globals, pcb_at, init_pcb_stack, init_fields, init_task}
use ucas_oslab_project.Boot.Stack.{init_pcb_stack-Stacked}

-- Task `j` is ready to run: when `switch_to` loads the words at its `kernel_sp` it goes on at
-- `ret_from_exception`, with a trap frame above from which the program starts. `kern` and `user`
-- are where the pages of the first task begin.
pub record TaskAt (m : Machine) (g : Globals) (kern user : ℕ) (k : Kernel) (j entry : ℕ)
    : Type 0 where
  pub pid : (k.pcb (pcb_at g j)).pid ≡ j + 1
  pub ready : (k.pcb (pcb_at g j)).status ≡ task_ready
  pub kernel_sp : (k.pcb (pcb_at g j)).kernel_sp ≡ kern + 4096 * j + 3696
  pub user_sp : (k.pcb (pcb_at g j)).user_sp ≡ user + 65536 * (j + 1)
  pub ra : k.stack (kern + 4096 * j + 3696) ≡ m.ret_from_exception
  pub switchto_sp : k.stack (kern + 4096 * j + 3696 + 8) ≡ kern + 4096 * j + 3696
  pub frame_sp : k.stack (kern + 4096 * j + 3696 + 112 + 16) ≡ user + 65536 * (j + 1)
  pub frame_tp : k.stack (kern + 4096 * j + 3696 + 112 + 32) ≡ pcb_at g j
  pub sepc : k.stack (kern + 4096 * j + 3696 + 112 + 264) ≡ entry
  pub sstatus : k.stack (kern + 4096 * j + 3696 + 112 + 256) ≡ sr_spie

-- The nodes of the tasks below `n`, in order.
abbrev pub nodes : Globals → ℕ → List Ptr
nodes g zero = []
nodes g (suc n) = nodes g n ++ list_of (pcb_at g n) ∷ []

pub nodes-has :
    (g : Globals) (n : ℕ) (q : Ptr)
    → ((j : ℕ) → j < n → q ≢ list_of (pcb_at g j))
    → has q (nodes g n) ≡ false
nodes-has g zero q apart = refl
nodes-has g (suc n) q apart = ground (
  arith,
  has-append q (nodes g n) (list_of (pcb_at g n) ∷ []),
  nodes-has g n q (λ j lt. apart j (omega arith)),
  apart n,
)

-- The kernel before the round of task `n`.
pub record Before (m : Machine) (g : Globals) (kern user n : ℕ) (k : Kernel) : Type 0 where
  pub kern_page : k.kern_mem_curr ≡ kern + 4096 * n
  pub user_page : k.user_mem_curr ≡ user + 65536 * n
  pub queue : IsRing k.links m.ready_queue (nodes g n)

module _ (m : Machine) (g : Globals) (kern user n : ℕ) (k : Kernel) (b : Before m g kern user n k)
    (kern_aligned : kern % 4096 ≡ 0) (user_aligned : user % 4096 ≡ 0)
    (kern_room : kern + 4096 * n + 8192 ≤ 2 ^ 64)
    (user_room : user + 65536 * n + 69632 ≤ 2 ^ 64) where
  p : Ptr
  p = pcb_at g n

  paged : Kernel
  paged = record k {
    kern_mem_curr = kern + 4096 * n + 4096;
    user_mem_curr = user + 65536 * n + 65536;
  }

  stacked : ℕ → Kernel
  stacked entry =
      init_pcb_stack m (kern + 4096 * n + 3696 + 400) (user + 65536 * (n + 1)) entry p
        (init_fields g n paged)

  linked : ℕ → Kernel
  linked entry =
      let k4 = stacked entry in
      record k4 { links = list_add_tail (list_of p) m.ready_queue k4.links }

  init_task-linked : (entry : ℕ) → init_task m g n entry k ≡ linked entry
  unfolding init_task linked stacked paged p
  init_task-linked entry =
      let k1 = record k { kern_mem_curr = k.kern_mem_curr + 1 * 4096 } in
      let e1 : (k.kern_mem_curr + page_size) % 2 ^ 64 ≡ kern + 4096 * n + 3696 + 400 =
        omega (arith, b.kern_page) in
      let e2 : (k.user_mem_curr + page_size * 16) % 2 ^ 64 ≡ user + 65536 * (n + 1) =
        omega (arith, b.user_page) in
      let e3 : k.kern_mem_curr + 1 * 4096 ≡ kern + 4096 * n + 4096 = omega (arith, b.kern_page) in
      let e4 : k.user_mem_curr + 16 * 4096 ≡ user + 65536 * n + 65536 =
        omega (arith, b.user_page) in
      rw (
        kernel-exact 1 k (omega (arith, b.kern_page)) (omega (arith, b.kern_page)),
        user-exact 16 k1 (omega (arith, b.user_page)) (omega (arith, b.user_page)),
        e1,
        e2,
        e3,
        e4,
      )

  init_fields-links :
      (init_fields g n paged).links
      ≡ init_list_head (thread_group_of p) (init_list_head (list_of p) k.links)
  unfolding init_fields paged p
  init_fields-links = refl

  module _ (few : n < 16)
      (apart : (m.ready_queue < g.pcb) ⊎ (g.pcb + 72 * 16 ≤ m.ready_queue)) where
    new_node : has (list_of p) (m.ready_queue ∷ nodes g n) ≡ false
    unfolding p
    new_node = ground (arith, nodes-has g n (list_of (pcb_at g n)) (λ j lt e. omega arith))

    new_group : has (thread_group_of p) (m.ready_queue ∷ nodes g n) ≡ false
    unfolding p
    new_group = ground (arith, nodes-has g n (thread_group_of (pcb_at g n)) (λ j lt e. omega arith))

    fields_queue : IsRing (init_fields g n paged).links m.ready_queue (nodes g n)
    unfolding init_fields paged p
    fields_queue =
        IsRing-frame (thread_group_of p ∷ []) (init_list_head-SameOutside (thread_group_of p) _)
          (λ q i.
            ground (arith, new_group, has_ne (thread_group_of p) q (m.ready_queue ∷ nodes g n)))
          (IsRing-frame (list_of p ∷ []) (init_list_head-SameOutside (list_of p) k.links)
            (λ q i. ground (arith, new_node, has_ne (list_of p) q (m.ready_queue ∷ nodes g n)))
            b.queue)

    pub init_task-Before : (entry : ℕ) → Before m g kern user (suc n) (init_task m g n entry k)
    unfolding linked stacked paged p init_pcb_stack store_switchto init_fields
    init_task-Before entry =
        let (joined, same) = list_add_tail-IsRing (list_of p) fields_queue new_node in
        rw (init_task-linked entry)
          (record { kern_page = omega arith; user_page = omega arith; queue = joined })

    -- The nodes that are written to.
    pub init_task-SameOutside :
        (entry : ℕ)
        → SameOutside
            (list_of (pcb_at g n) ∷ thread_group_of (pcb_at g n) ∷ m.ready_queue ∷ nodes g n)
            k.links
            (init_task m g n entry k).links
    unfolding linked stacked paged p init_pcb_stack store_switchto init_fields
    init_task-SameOutside entry =
        let (joined, same) = list_add_tail-IsRing (list_of p) fields_queue new_node in
        let first = init_list_head-SameOutside (list_of p) k.links in
        let second =
          init_list_head-SameOutside (thread_group_of p) (init_list_head (list_of p) k.links) in
        let touched = list_of p ∷ thread_group_of p ∷ m.ready_queue ∷ nodes g n in
        rw (init_task-linked entry) (
          SameOutside-trans touched
            (SameOutside-mono (list_of p ∷ []) touched (λ q out. ground (arith, out)) first)
            (SameOutside-trans touched
              (SameOutside-mono (thread_group_of p ∷ []) touched (λ q out. ground (arith, out))
                second)
              (SameOutside-mono (list_of p ∷ m.ready_queue ∷ nodes g n) touched
                (λ q out. ground (arith, out)) same)))

  -- The other blocks and the registers.
  pub init_task-others :
      (entry : ℕ) (q : Ptr) → (q == pcb_at g n) ≡ false → (init_task m g n entry k).pcb q ≡ k.pcb q
  unfolding linked stacked paged p init_fields
  init_task-others entry q ne =
      let s =
        init_pcb_stack-Stacked m (kern + 4096 * n + 3696) (user + 65536 * (n + 1)) entry
          (pcb_at g n) (init_fields g n paged) (omega arith) in
      rw (init_task-linked entry) (s.others q ne ∙ ground arith)

  pub init_task-cpu : (entry : ℕ) → (init_task m g n entry k).cpu ≡ k.cpu
  unfolding linked stacked paged p init_fields
  init_task-cpu entry =
      let s =
        init_pcb_stack-Stacked m (kern + 4096 * n + 3696) (user + 65536 * (n + 1)) entry
          (pcb_at g n) (init_fields g n paged) (omega arith) in
      rw (init_task-linked entry) s.cpu

  -- The new task, and those before it.
  pub init_task-TaskAt : (entry : ℕ) → TaskAt m g kern user (init_task m g n entry k) n entry
  unfolding linked stacked paged p init_fields
  init_task-TaskAt entry =
      let s =
        init_pcb_stack-Stacked m (kern + 4096 * n + 3696) (user + 65536 * (n + 1)) entry
          (pcb_at g n) (init_fields g n paged) (omega arith) in
      rw (init_task-linked entry) (record {
        pid = s.pid ∙ ground arith;
        ready = s.status ∙ ground arith;
        kernel_sp = s.kernel_sp;
        user_sp = s.user_sp;
        ra = s.ra;
        switchto_sp = s.switchto_sp;
        frame_sp = s.frame_sp;
        frame_tp = s.frame_tp;
        sepc = s.sepc;
        sstatus = s.sstatus;
      })

  pub init_task-keeps :
      (entry j e : ℕ)
      → j < n
      → TaskAt m g kern user k j e
      → TaskAt m g kern user (init_task m g n entry k) j e
  unfolding linked stacked paged p init_fields
  init_task-keeps entry j e lt old =
      let s =
        init_pcb_stack-Stacked m (kern + 4096 * n + 3696) (user + 65536 * (n + 1)) entry
          (pcb_at g n) (init_fields g n paged) (omega arith) in
      let same : (linked entry).pcb (pcb_at g j) ≡ k.pcb (pcb_at g j) =
        s.others (pcb_at g j) (ground arith) ∙ ground arith in
      let words : (q : ℕ) → q < kern + 4096 * n + 3696 → (linked entry).stack q ≡ k.stack q =
        λ q low. s.outside q (inl low) in
      rw (init_task-linked entry) (record {
        pid = ap (λ (t : Pcb). t.pid) same ∙ old.pid;
        ready = ap (λ (t : Pcb). t.status) same ∙ old.ready;
        kernel_sp = ap (λ (t : Pcb). t.kernel_sp) same ∙ old.kernel_sp;
        user_sp = ap (λ (t : Pcb). t.user_sp) same ∙ old.user_sp;
        ra = words _ (omega arith) ∙ old.ra;
        switchto_sp = words _ (omega arith) ∙ old.switchto_sp;
        frame_sp = words _ (omega arith) ∙ old.frame_sp;
        frame_tp = words _ (omega arith) ∙ old.frame_tp;
        sepc = words _ (omega arith) ∙ old.sepc;
        sstatus = words _ (omega arith) ∙ old.sstatus;
      })
