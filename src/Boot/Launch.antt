-- ===== src/Boot/Launch.antt =====
-- init/main.c with kernel/sched/sched.c and arch/riscv/kernel/entry.S: from `init_pcb` to the first
-- instruction of the first task.
use ucas_oslab_project.Common.{
  ℕ, ◌+◌, ◌*◌, ◌%◌, ◌^◌, ◌≤◌, ◌<◌, ◌≡◌, refl, ap, ◌∙◌, ◌==◌, ◌⊎◌, false, some, List, [], ◌∷◌, arith,
  length,
}
use ucas_oslab_project.LinkedList.{Ptr, update}
use ucas_oslab_project.LinkedList.Chain.{IsRing}
use ucas_oslab_project.Kernel.{task_blocked, is_running, Cpu, Pcb, Machine, Kernel}
use ucas_oslab_project.Strings.{Mem}
use ucas_oslab_project.Strings.Build.{byte_at}
use ucas_oslab_project.Loader.{Disk}
use ucas_oslab_project.Threads.{sr_spie}
use ucas_oslab_project.Sched.{do_scheduler}
use ucas_oslab_project.Boot.{Globals, pcb_at, init_pcb}
use ucas_oslab_project.Boot.Task.{TaskAt}
use ucas_oslab_project.Boot.Tasks.{Loads}
use ucas_oslab_project.Boot.Quiet.{OutsidePcb, init_tasks-Quiet}
use ucas_oslab_project.Boot.First.{FirstTurn, begun-IsSched, first-FirstTurn}
use ucas_oslab_project.Trap.{Hart, ret_from_exception}
use ucas_oslab_project.Trap.Return.{ret_from_exception-Resumed}
use ucas_oslab_project.Trap.Start.{frame_regs, frame_regs-HasFrame}

-- The processor on the kernel's stack, as `switch_to` leaves it.
abbrev pub switched : Kernel → Hart → Hart
switched k h = record h { x = update h.x 2 k.cpu.sp; mem = k.stack }

-- A program that starts in user mode on its own stack.
pub record Launched (entry_point user_stack block : ℕ) (h : Hart) : Type 0 where
  pub pc : h.pc ≡ entry_point
  pub sp : h.x 2 ≡ user_stack
  pub tp : h.x 4 ≡ block
  pub sstatus : h.sstatus ≡ sr_spie

TaskAt-current :
    {m : Machine} {g : Globals} {kern user j e : ℕ} {k : Kernel} (p : Ptr)
    → TaskAt m g kern user k j e
    → TaskAt m g kern user (record k { current_running = p }) j e
TaskAt-current p t = record {
  pid = t.pid;
  ready = t.ready;
  kernel_sp = t.kernel_sp;
  user_sp = t.user_sp;
  ra = t.ra;
  switchto_sp = t.switchto_sp;
  frame_sp = t.frame_sp;
  frame_tp = t.frame_tp;
  sepc = t.sepc;
  sstatus = t.sstatus;
}

launch :
    (m : Machine) (g : Globals) (kern user e : ℕ) (k1 k2 : Kernel) (h : Hart)
    → TaskAt m g kern user k1 0 e
    → k2.cpu.sp ≡ kern + 3696 + 112
    → ((q : Ptr) → kern + 3696 ≤ q → k2.stack q ≡ k1.stack q)
    → (g.pcb + 8 ≤ kern) ⊎ (kern + 4096 ≤ g.pcb)
    → Launched e (user + 65536) (pcb_at g 0) (ret_from_exception (switched k2 h))
launch m g kern user e k1 k2 h t at same apart =
    let h1 = switched k2 h in
    let sp_word : h1.mem (h1.x 2 + 16) ≡ user + 65536 =
      ground (arith, at, same (kern + 3696 + 112 + 16), t.frame_sp) in
    let tp_word : h1.mem (h1.x 2 + 32) ≡ pcb_at g 0 =
      ground (arith, at, same (kern + 3696 + 112 + 32), t.frame_tp) in
    let epc : h1.mem (h1.x 2 + 264) ≡ e =
      ground (arith, at, same (kern + 3696 + 112 + 264), t.sepc) in
    let status : h1.mem (h1.x 2 + 256) ≡ sr_spie =
      ground (arith, at, same (kern + 3696 + 112 + 256), t.sstatus) in
    let back =
      ret_from_exception-Resumed h1 (frame_regs h1) (h1.mem (h1.x 2 + 264)) (h1.mem (h1.x 2 + 256))
        (frame_regs-HasFrame h1) (ground (arith, tp_word, at, apart)) in
    record {
      pc = back.pc ∙ epc;
      sp = back.reg 2 (omega arith) (omega arith) ∙ sp_word;
      tp = back.reg 4 (omega arith) (omega arith) ∙ tp_word;
      sstatus = back.sstatus ∙ status;
    }

-- From a start with at least one task and 16 at most, whose names lead to loads, two empty queues
-- apart from each other and from the array pcb, a blocked pid 0 whose block is outside that array
-- and whose stack lies below the pages, room for the stacks at page boundaries, and the first
-- block apart from the first stack: init_pcb ends, given more rounds than names; do_scheduler of
-- the state that it leaves ends, given fuel, and makes the first task the running one, the others
-- ready in their order, with the scheduler's invariant; and ret_from_exception on the stack that
-- switch_to has loaded starts that task in user mode at its entry point, on its own user stack and
-- with its block in tp.
pub init_pcb-Launched :
    (m : Machine) (g : Globals) (d : Disk) (rounds e : ℕ) (es : List ℕ) (mem mem' : Mem)
    (k : Kernel) (h : Hart)
    → k.kern_mem_curr % 4096 ≡ 0
    → k.user_mem_curr % 4096 ≡ 0
    → OutsidePcb g m.ready_queue
    → IsRing k.links m.ready_queue []
    → Loads d 0 mem (e ∷ es) mem'
    → length (e ∷ es) < rounds
    → length (e ∷ es) ≤ 16
    → k.kern_mem_curr + 4096 * length (e ∷ es) + 4096 ≤ 2 ^ 64
    → k.user_mem_curr + 65536 * length (e ∷ es) + 4096 ≤ 2 ^ 64
    → OutsidePcb g m.sleep_queue
    → (m.sleep_queue == m.ready_queue) ≡ false
    → IsRing k.links m.sleep_queue []
    → OutsidePcb g g.pid0_pcb
    → (k.pcb g.pid0_pcb).status ≡ task_blocked
    → 112 ≤ k.cpu.sp
    → k.cpu.sp ≤ k.kern_mem_curr
    → (g.pcb + 8 ≤ k.kern_mem_curr) ⊎ (k.kern_mem_curr + 4096 ≤ g.pcb)
    → 0 < m.fuel
    → (k1 : Kernel) × (k2 : Kernel) × (init_pcb m g d rounds mem k ≡ some (mem', k1))
      × (do_scheduler m k1 ≡ some k2)
      × FirstTurn m g k.kern_mem_curr k.user_mem_curr (length es) k2
      × Launched e (k.user_mem_curr + 65536) (pcb_at g 0) (ret_from_exception (switched k2 h))
unfolding init_pcb
init_pcb-Launched m g d rounds e es mem mem' k h kern_aligned user_aligned ready_out empty loads
      enough few kern_room user_room sleep_out sleep_ready nobody pid0_out idle room below apart
      fuel =
    let kern = k.kern_mem_curr in
    let user = k.user_mem_curr in
    let (k', goes, r, quiet) =
      init_tasks-Quiet m g d rounds (e ∷ es) mem mem' k m.sleep_queue g.pid0_pcb kern_aligned
        user_aligned ready_out empty loads enough few kern_room user_room sleep_out sleep_ready
        pid0_out nobody in
    let k1 = record k' { current_running = g.pid0_pcb } in
    let cpu_sp : k1.cpu.sp ≡ k.cpu.sp = ap (λ (c : Cpu). c.sp) quiet.cpu in
    let s =
      begun-IsSched m g kern user (length (e ∷ es)) (byte_at (e ∷ es)) k k' r quiet few sleep_out
        sleep_ready idle in
    let t = TaskAt-current g.pid0_pcb (r.tasks 0 (omega arith)) in
    let (k2, turn, first, same) =
      first-FirstTurn m g kern user (length es) e k1 s t refl
        (ap (λ (b : Pcb). is_running b.status) quiet.block ∙ ap is_running idle) pid0_out
        (omega (arith, cpu_sp)) (omega (arith, cpu_sp)) (omega arith) fuel in
    (k1, k2, rw (goes, init_pcb), turn, first, launch m g kern user e k1 k2 h t first.sp same apart)
