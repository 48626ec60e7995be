-- ===== src/Kernel/Tests.antt =====
-- The entry of the kernel at concrete inputs.
use gubos.Prelude.{ℕ, inl, ◌≡◌, refl, none, [], done, arith}
use gubos.Kmalloc.{header}
use gubos.Meminfo.Sample.{kernel}
use gubos.Paging.{PagingContext}
use gubos.Sched.Sample.{state}
use gubos.Tty.Sample.{mem, off, screen}
use gubos.Ps2.{ScancodeQueue}
use gubos.Ps2.Setup.{Trace}
use gubos.Ps2.Setup.Commands.{init_devices-commands}
use gubos.Vmm.Tree.{null}
use gubos.Vmm.Context.{context}
use gubos.Task.{TaskControlBlock}
use gubos.Kernel.{Symbols, Kernel, kernel_main, go_on}

abbrev symbols : Symbols
symbols = record {
  page_directory = 0xc012_0000;
  page_tables = 0xc013_0000;
  parameter = 0xc01f_f000;
  halt = 0x100;
  remove = 0x200;
  goto_user_mode = 0x300;
  test_task = 0x400;
}

abbrev tables : PagingContext
tables = record {
  directory_addr = 0;
  tables_addr = 0;
  page_directory = λ i. 0;
  page_tables = λ i k. 0;
}

abbrev no_block : TaskControlBlock
no_block = record {
  pid = 0;
  kernel_stack_top = 0;
  virtual_addr_space = 0;
  esp0 = 0;
  vmm_context = context null [];
  paging_ctx = tables;
  parent = 0;
}

abbrev no_keys : ScancodeQueue
no_keys = record { start = 0; end = 0; buf = λ i. 0; ports = [] }

abbrev machine : Kernel
machine = record {
  tty = off;
  queue = no_keys;
  ports = [];
  bitmap = λ i. 0;
  heap = record { head = 0; cell = λ a. header 0 0 };
  memory = λ a. 0;
  blocks = λ a. no_block;
  bytes = λ a. 0;
  sched = state;
}

-- a device that answers every read with 0
abbrev idle : ℕ → Trace → ℕ
idle port t = 0

-- what memory holds where the copied trees come to lie
abbrev stale : ℕ → ℕ
stale a = 7

-- with another magic number the entry returns
refused : kernel_main kernel symbols stale stale idle 1 0 1024 mem machine ≡ done none
unfolding kernel_main go_on
refused =
    let (t, run, _) = screen in
    let (t', _, _, keys, _, _, _) =
      init_devices-commands idle 1 (λ t. inl refl) (λ t. inl refl) (λ t. inl (omega arith)) no_keys
        [] in
    rw (run, keys) refl
