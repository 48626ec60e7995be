-- ===== src/Interrupts/Tests.antt =====
-- The interrupt table and the page fault handler at concrete inputs.
use gubos.Prelude.{ℕ, ◌+◌, ◌*◌, ◌≡◌, refl, some, [], ◌∷◌, done, arith}
use gubos.Meminfo.Sample.{kernel}
use gubos.Page.{paging_align_addr}
use gubos.Paging.{PagingContext}
use gubos.Paging.Translate.{translate}
use gubos.Vmm.Tree.{Allocation, allocation, null, node, find_allocation}
use gubos.Vmm.Context.{context, vmm_find_allocation}
use gubos.Interrupts.Handlers.{Handler, number}
use gubos.Interrupts.Idt.{IdtGateDescriptor, IdtRegister, Idt, idt_init}
use gubos.Interrupts.Idt.Vectors.{isr_of, vector-handler}
use gubos.Interrupts.Timer.{timer_irqs, ends, timer_irqs-round}
use gubos.Sched.{task_node}
use gubos.Sched.Ring.{switched_to}
use gubos.Sched.Sample.{state, state-IsRing}
use gubos.Interrupts.PageFault.{FaultState, page_fault_handler}
use gubos.Interrupts.PageFault.Resolve.{fixed_page_fault}

abbrev no_gate : IdtGateDescriptor
no_gate = record { addr_low = 0; segment_selector = 0; reserved = 0; flags = 0; addr_high = 0 }

abbrev no_register : IdtRegister
no_register = record { limit = 0; base = 0 }

abbrev boot : Idt
boot = record { idt_descriptors = λ i. no_gate; idtr = no_register; ports = [] }

-- the routines one page apart
abbrev addr_of : Handler → ℕ
addr_of h = 0xc010_0000 + number h * 4096

abbrev masks : ℕ → ℕ
masks port = 0xff

abbrev loaded : Idt
loaded = idt_init addr_of 0xc012_0000 0xff 0xff masks boot

vector-handler_example :
    (isr_of (loaded.idt_descriptors 14) ≡ 0xc010_e000) × ((loaded.idt_descriptors 14).flags ≡ 0x8f)
vector-handler_example =
    vector-handler addr_of 0xc012_0000 0xff 0xff masks boot Handler.page_fault (omega arith)

abbrev frames : Allocation
frames = allocation 0x4000 0x80_0000 2 3

abbrev tables : PagingContext
tables = record {
  directory_addr = 0xc012_0000;
  tables_addr = 0xc013_0000;
  page_directory = λ i. 0;
  page_tables = λ i k. 0;
}

abbrev fault_state : FaultState
fault_state = record {
  paging = tables;
  vmm = context (node 0xe000_0008 (some 0) frames null null) [];
  bitmap = λ i. 0;
}

found : vmm_find_allocation fault_state.vmm (paging_align_addr 0x5123) ≡ done frames
unfolding vmm_find_allocation find_allocation paging_align_addr
found = refl

fixed_page_fault_example :
    (p : PagingContext) × (page_fault_handler kernel 0x5123 0 fault_state
      ≡ done (record fault_state { paging = p }))
    × (translate kernel p (paging_align_addr 0x5123) ≡ some 0x80_0000)
fixed_page_fault_example =
    fixed_page_fault kernel 0x5123 0 fault_state frames refl found (omega arith) (omega arith)
      (omega arith) refl refl refl (omega arith)

timer_irqs-round_example :
    timer_irqs 3 (record { sched = state; ports = [] })
    ≡ record { sched = switched_to 100 (task_node 3 0 200) (3 ∷ 2 ∷ 1 ∷ []) state; ports = ends 3 }
timer_irqs-round_example =
    timer_irqs-round (record { sched = state; ports = [] }) (100 ∷ 200 ∷ []) refl state-IsRing refl
