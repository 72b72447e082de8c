-- ===== src/Tests/State.antt =====
-- A small system: the running task 11, with 12 and the idle task 10 on its core, and the tasks 21
-- and 22, which are runnable.
use simple_as_pi.Common.{ℕ, ◌≡◌, refl, false, [], ◌∷◌, ◌==◌, if◌then◌else◌, update, arith}
use simple_as_pi.Dll.{Links}
use simple_as_pi.Dll.Ring.{Ring, IsList}
use simple_as_pi.Tasks.{Tasks}
use simple_as_pi.Blocks.{Block}
use simple_as_pi.Pipe.{Pipe}
use simple_as_pi.Kernel.{Kernel}
use simple_as_pi.Kernel.Running.{CanStop}

-- Every item alone.
abbrev pub apart : Links
apart = record { next = λ p. p; prev = λ p. p }

abbrev pub two : ℕ → ℕ → Links → Links
two a b s = record { next = update (update s.next a b) b a; prev = update (update s.prev a b) b a }

abbrev pub three : ℕ → ℕ → ℕ → Links → Links
three a b c s = record {
  next = update (update (update s.next a b) b c) c a;
  prev = update (update (update s.prev a c) b a) c b;
}

abbrev pub some_links : Links
some_links = two 21 22 (three 11 12 10 apart)

abbrev pub some_tasks : Tasks
some_tasks = record {
  links = some_links;
  r = λ t n. 0;
  lr = λ t. 0x8000;
  spsr = λ t. 0x10;
  running = λ t. t == 11;
  slot = λ t. if t == 11 then 5 else 6;
  home = λ t. 0;
  controller = λ t i. 0;
  swi = λ t. 0;
}

abbrev pub blank : Block
blank = record { page_base = 0; pages = 0; va_page = 0; device = false; read_only = false }

abbrev pub some_pipe : Pipe
some_pipe = record {
  sender = 11;
  sender_waiting_for = 0;
  sender_va = 0x8000;
  receiver = 41;
  receiver_waiting_for = 0;
  receiver_va = 0x10000;
  memory = 0x100000;
  owner = 0;
  max_block_size = 0x1000;
  max_data = 0;
  write_index = 0x1010;
  read_index = 0x1000;
}

abbrev pub system : Kernel
system = record {
  tasks = some_tasks;
  regs = record { r = λ n. 0; lr = 0x8000; spsr = 0x10 };
  core = 0;
  running = 11;
  idle = 10;
  irq_task = 0;
  interrupted_tasks = 0;
  lock = 0;
  runnable = 21;
  sleeping = 0;
  blocked = 0;
  moving = 0;
  number_of_cores = 4;
  task_pool = 0;
  mapped = 5;
  contexts = λ a. record { r = λ n. 7; lr = 0x9000; spsr = 0x10 };
  queue_links = apart;
  queue_pool = 0;
  queues_lock = 0;
  queue_tasks = λ q. 0;
  queue_handlers = λ q. 0;
  pipes_lock = 0;
  pipe = λ p. some_pipe;
  pipe_links = apart;
  pipes = 0;
  pipe_pool = 0;
  log_pipe = 99;
  pipe_mem = λ slot i. blank;
  pipes_base = 0x8000;
  pipes_top = 0x100000;
  words = λ a. 0;
  error_block = λ e. 0x500;
}

-- The kernel with r0 and r1 of the caller.
abbrev pub calling : ℕ → ℕ → Kernel → Kernel
calling a b k = record k {
  regs = record (k.regs) { r = λ n. if n == 0 then a else if n == 1 then b else 0 };
}

pub Ring2 :
    (a b : ℕ) (s : Links) → (a == b) ≡ false → (b == a) ≡ false → Ring (two a b s) a (b ∷ [])
Ring2 a b s ne ne' = record {
  trail = (ground (arith, ne), ground (arith, ne), tt);
  close = ground arith;
  back = ground (arith, ne);
  distinct = (ground (arith, ne, ne'), (refl, tt));
}

pub core_list : Ring some_links 11 (12 ∷ 10 ∷ [])
core_list = record {
  trail = (refl, refl, (refl, refl, tt));
  close = refl;
  back = refl;
  distinct = (refl, (refl, (refl, tt)));
}

pub runnable_list : IsList some_links 21 (21 ∷ 22 ∷ [])
runnable_list = (
  refl,
  refl,
  record { trail = (refl, refl, tt); close = refl; back = refl; distinct = (refl, (refl, tt)) },
)

pub can_stop : CanStop system 12 (10 ∷ [])
can_stop = record {
  list = core_list;
  not_idle = ground arith;
  runs = refl;
  next_waits = refl;
  returns = ground arith;
}
