-- ===== src/Pipes/Ends.antt =====
-- The calls that give an end of a pipe away or give it up.
use simple_as_pi.Common.{
  ℕ, ◌/◌, ◌^◌, ◌≡◌, refl, ◌≢◌, ◌<◌, ◌≤◌, true, false, not, ◌&&◌, List, ◌∷◌, ◌++◌, arith, ◌==◌,
  if◌then◌else◌, update, length,
}
use simple_as_pi.Blocks.{Block}
use simple_as_pi.Blocks.Unmap.{Maps, Apart, unmap_and_free-Maps, unmap_and_free_unused}
use simple_as_pi.Pipe.{double_mapped}
use simple_as_pi.Kernel.{Kernel, ok, Error, set_bit, set_reg, ostask_from_handle}
use simple_as_pi.Pipes.{pipe_set_sender, pipe_set_receiver}

-- The task that r1 names is a task of another slot than `slot`.
abbrev pub IsElsewhere : Kernel → ℕ → Type 0
IsElsewhere k slot =
    (ostask_from_handle (k.regs.r 1) ≢ 0) × (slot ≢ k.tasks.slot (ostask_from_handle (k.regs.r 1)))

-- PipeSetSender by the sender, for a task of another slot, where the sender's table holds the
-- pipe's entries, with fuel for the table: just those entries leave the table, the others stay in
-- order, the task is the sender and has no mapping yet.
pub pipe_set_sender-Maps :
    (fuel p : ℕ) (k : Kernel) (bs : List Block) (b : Block) (gone cs : List Block)
    → (k.pipe p).sender ≡ k.running
    → (k.pipe p).sender ≢ 0
    → IsElsewhere k (k.tasks.slot (k.pipe p).sender)
    → length bs < fuel
    → length cs < fuel
    → Apart ((k.pipe p).sender_va / 2 ^ 12) bs
    → b.va_page ≡ (k.pipe p).sender_va / 2 ^ 12
    → length (b ∷ gone) ≡ (if double_mapped (k.pipe p) then 2 else 1)
    → Maps (k.pipe_mem (k.tasks.slot (k.pipe p).sender)) 0 (bs ++ b ∷ (gone ++ cs))
    → (k' : Kernel) × (pipe_set_sender fuel p k ≡ ok 0 k')
      × Maps (k'.pipe_mem (k.tasks.slot (k.pipe p).sender)) 0 (bs ++ cs)
      × ((k'.pipe p).sender ≡ ostask_from_handle (k.regs.r 1))
      × ((k'.pipe p).sender_va ≡ 0)
unfolding pipe_set_sender
pipe_set_sender-Maps fuel p k bs b gone cs own nz away f g apart page size m =
    let v = k.pipe p in
    let slot : ℕ = k.tasks.slot v.sender in
    let task : ℕ = ostask_from_handle (k.regs.r 1) in
    let (u, run, maps) =
      unmap_and_free-Maps fuel v.sender_va (double_mapped v) bs b gone cs (k.pipe_mem slot) f g
        apart page size m in
    let set : (v.sender == 0) ≡ false = ground (arith, nz) in
    let moves : (slot == k.tasks.slot task) ≡ false = ground (arith, away.1) in
    let mine : (v.sender == k.running) ≡ true = ground (arith, own) in
    let known : (task == 0) ≡ false = ground (arith, away.0) in
    let given : (not (k.regs.r 1 == 0) && false) ≡ false = ground arith in
    let same : (p == p) ≡ true = ground arith in
    let here : (slot == slot) ≡ true = ground arith in
    (
      record k {
        pipe_mem = update k.pipe_mem slot u;
        pipe = update k.pipe p (record v { sender = task; sender_va = 0 });
      },
      simp (set, mine, known, given, moves, run),
      rw here maps,
      rw same refl,
      rw same refl,
    )

-- PipeSetReceiver by the receiver, for a task of another slot, with fuel for the table, where no
-- pipe is mapped at page 0 and the entries behind the used ones are blank: the receiver's table
-- stays as it is, with the entries of the pipe in it.
pub pipe_set_receiver_keeps :
    (fuel p : ℕ) (k : Kernel) (bs : List Block)
    → (k.pipe p).receiver ≡ k.running
    → (k.pipe p).receiver ≢ 0
    → IsElsewhere k (k.tasks.slot (k.pipe p).receiver)
    → length bs < fuel
    → Apart 0 bs
    → Maps (k.pipe_mem (k.tasks.slot (k.pipe p).receiver)) 0 bs
    → (k.pipe_mem (k.tasks.slot (k.pipe p).receiver) (length bs)).va_page ≡ 0
    → ((j : ℕ)
        → length bs ≤ j
        → k.pipe_mem (k.tasks.slot (k.pipe p).receiver) j
          ≡ k.pipe_mem (k.tasks.slot (k.pipe p).receiver) (length bs))
    → (k' : Kernel) × (pipe_set_receiver fuel p k ≡ ok 0 k')
      × ((j : ℕ)
          → k'.pipe_mem (k.tasks.slot (k.pipe p).receiver) j
            ≡ k.pipe_mem (k.tasks.slot (k.pipe p).receiver) j)
      × ((k'.pipe p).receiver ≡ ostask_from_handle (k.regs.r 1))
      × ((k'.pipe p).receiver_va ≡ 0)
unfolding pipe_set_receiver
pipe_set_receiver_keeps fuel p k bs own nz away f apart m page blank =
    let v = k.pipe p in
    let slot : ℕ = k.tasks.slot v.receiver in
    let task : ℕ = ostask_from_handle (k.regs.r 1) in
    let (u, run, kept) =
      unmap_and_free_unused fuel (double_mapped v) bs (k.pipe_mem slot) f apart m page blank in
    let set : (v.receiver == 0) ≡ false = ground (arith, nz) in
    let moves : (slot == k.tasks.slot task) ≡ false = ground (arith, away.1) in
    let mine : (v.receiver == k.running) ≡ true = ground (arith, own) in
    let known : (task == 0) ≡ false = ground (arith, away.0) in
    let given : (not (k.regs.r 1 == 0) && false) ≡ false = ground arith in
    let same : (p == p) ≡ true = ground arith in
    let here : (slot == slot) ≡ true = ground arith in
    (
      record k {
        pipe_mem = update k.pipe_mem slot u;
        pipe =
            update (update k.pipe p (record v { receiver_va = 0 })) p
              (record v { receiver = task; receiver_va = 0 });
      },
      simp (set, mine, known, given, moves, same, run),
      λ j. rw here (kept j),
      rw same refl,
      rw same refl,
    )

-- The kernel after a call has failed: r0 is the error block's address, and V is set.
abbrev pub failed : Error → Kernel → Kernel
failed e k = record k {
  regs = record (set_reg 0 (k.error_block e) k.regs) { spsr = set_bit 0x10000000 k.regs.spsr };
}
