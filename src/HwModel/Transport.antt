-- ===== src/HwModel/Transport.antt =====
-- sim/hw-model/src/sim_transport.cpp, and HwModelServer::init on it: the shared page, its
-- descriptor and name, and the eventfd. What the kernel holds is counted; what it answers is given.
use deepspan.Common.{
  ℕ, ◌+◌, ◌-◌, ◌≡◌, refl, sym, ap, ◌∙◌, Bool, true, false, Option, none, some, bit_or, arith,
}
use deepspan.Shm.{Page, RegMap, ready_bit}
use deepspan.Shm.Ctrl.{has_start}
use deepspan.Plugin.{device_state, ready}

-- Open descriptors, mappings, and whether the name stands in /dev/shm.
pub record Kernel : Type 0 where
  pub fds : ℕ
  pub maps : ℕ
  pub named : Bool

-- Whether shm_open, ftruncate, mmap and eventfd succeed, and the page that is mapped.
pub record Answers : Type 0 where
  pub opens : Bool
  pub truncates : Bool
  pub mapped : Option Page
  pub events : Bool

-- A descriptor of -1 is `false`, a null `reg_base_` is `none`.
pub record SimTransport : Type 0 where
  pub shm_fd : Bool
  pub irq_fd : Bool
  pub reg_base : Option Page

unfoldable pub new_transport : SimTransport
new_transport = record { shm_fd = false; irq_fd = false; reg_base = none }

-- memset of the register map, and the three registers.
unfoldable pub initial_regs : RegMap
initial_regs = record {
  ctrl = 0;
  status = ready_bit;
  irq_status = 0;
  irq_enable = 0;
  version = 0x0001_0000;
  capabilities = 7;
  cmd_opcode = 0;
  cmd_arg0 = 0;
  cmd_arg1 = 0;
  cmd_flags = 0;
  result_status = 0;
  result_data0 = 0;
  result_data1 = 0;
}

abbrev pub Made : Type 0
Made = Kernel × SimTransport × Bool

-- From the eventfd on.
unfoldable pub init_event : Kernel → SimTransport → Bool → Made
init_event k t false = (k, t, false)
init_event k t true = (record k { fds = k.fds + 1 }, record t { irq_fd = true }, true)

-- From the mmap on.
unfoldable pub init_map : Kernel → SimTransport → Option Page → Bool → Made
init_map k t none events = (k, record t { reg_base = none }, false)
init_map k t (some p) events =
    init_event (record k { maps = k.maps + 1 })
      (record t { reg_base = some (record p { regs = initial_regs }) }) events

-- From the ftruncate on.
unfoldable pub init_size : Kernel → SimTransport → Answers → Bool → Made
init_size k t a false = (k, t, false)
init_size k t a true = init_map k t a.mapped a.events

unfoldable pub init_open : Kernel → SimTransport → Answers → Bool → Made
init_open k t a false = (k, record t { shm_fd = false }, false)
init_open k t a true =
    init_size (record k { fds = k.fds + 1; named = true }) (record t { shm_fd = true }) a
      a.truncates

unfoldable pub init : Kernel → SimTransport → Answers → Made
init k t a = init_open k t a a.opens

unfoldable pub unmap : Kernel → Option Page → Kernel
unmap k none = k
unmap k (some p) = record k { maps = k.maps - 1 }

unfoldable pub close_shm : Kernel → Bool → Kernel
close_shm k false = k
close_shm k true = record k { fds = k.fds - 1; named = false }

unfoldable pub close_irq : Kernel → Bool → Kernel
close_irq k false = k
close_irq k true = record k { fds = k.fds - 1 }

unfoldable pub cleanup : Kernel → SimTransport → Kernel × SimTransport
cleanup k t = (
  close_irq (close_shm (unmap k t.reg_base) t.shm_fd) t.irq_fd,
  record { shm_fd = false; irq_fd = false; reg_base = none },
)

-- The move constructor: the new object, and what is left of the other.
unfoldable pub move : SimTransport → SimTransport × SimTransport
move t = (t, record { shm_fd = false; irq_fd = false; reg_base = none })

-- Bits into IRQ_STATUS, and whether an event is written.
unfoldable pub raise_irq : SimTransport → ℕ → SimTransport × Bool
raise_irq t bits = elim t.reg_base [
  | none ↦ (t, t.irq_fd)
  | some p ↦ (
    record t {
      reg_base =
          some (record p { regs = record p.regs { irq_status = bit_or p.regs.irq_status bits } });
    },
    t.irq_fd,
  )
]

-- HwModelServer::init: the page that the server begins with, none where it fails.
unfoldable pub served : ℕ → SimTransport × Bool → Option Page
served now (t, false) = none
served now (t, true) = elim t.reg_base [
  | none ↦ none
  | some p ↦ some (record p {
    regs = record p.regs { status = ready_bit };
    stats = record p.stats { start_time_sec = now };
  })
]

unfoldable pub server_init : ℕ → Kernel → Answers → Option Page
server_init now k a = served now (let (k', t, done) = init k new_transport a in (t, done))

-- After a move, the two destructors give back what the one of the original would have.
pub move-cleanup :
    (k : Kernel) (t : SimTransport)
    → let (moved, other) = move t in (cleanup (cleanup k other).0 moved).0 ≡ (cleanup k t).0
unfolding move cleanup unmap close_shm close_irq
move-cleanup k t = refl

abbrev kernel : ℕ → ℕ → Bool → Kernel
kernel fds maps named = record { fds = fds; maps = maps; named = named }

abbrev released : Kernel → Kernel × SimTransport
released k = (k, new_transport)

restored :
    (k : Kernel) (f m : ℕ) (b : Bool)
    → f ≡ k.fds
    → m ≡ k.maps
    → b ≡ k.named
    → released (kernel f m b) ≡ released k
restored k f m b p q r =
    ap (λ (x : ℕ). released (kernel x m b)) p
    ∙ ap (λ (x : ℕ). released (kernel k.fds x b)) q
    ∙ ap (λ (x : Bool). released (kernel k.fds k.maps x)) r

cleaned :
    (k : Kernel) (opens truncates events : Bool) (mapped : Option Page)
    → k.named ≡ false
    → let (k', t, done) =
        init k new_transport
          (record { opens = opens; truncates = truncates; mapped = mapped; events = events }) in
      cleanup k' t ≡ (k, new_transport)
unfolding init init_open init_size init_map init_event cleanup unmap close_shm close_irq
    new_transport
cleaned k false truncates events mapped n = refl
cleaned k true false events mapped n = restored k _ _ _ (omega arith) refl (sym n)
cleaned k true true events none n = restored k _ _ _ (omega arith) refl (sym n)
cleaned k true true false (some p) n = restored k _ _ _ (omega arith) (omega arith) (sym n)
cleaned k true true true (some p) n = restored k _ _ _ (omega arith) (omega arith) (sym n)

-- However far init() of a new transport comes, cleanup() closes what it opened, unmaps what it
-- mapped, and leaves no name behind.
pub init-cleanup :
    (k : Kernel) (a : Answers)
    → k.named ≡ false
    → let (k', t, done) = init k new_transport a in cleanup k' t ≡ (k, new_transport)
init-cleanup k a n = cleaned k a.opens a.truncates a.events a.mapped n

begun :
    (now : ℕ) (k : Kernel) (opens truncates events : Bool) (mapped : Option Page) (p q : Page)
    → mapped ≡ some p
    → server_init now k
        (record { opens = opens; truncates = truncates; mapped = mapped; events = events })
      ≡ some q
    → q ≡ record p { regs = initial_regs; stats = record p.stats { start_time_sec = now } }
unfolding server_init served init init_open init_size init_map init_event new_transport initial_regs
begun now k false truncates events mapped p q e h = absurd cc
begun now k true false events mapped p q e h = absurd cc
begun now k true true events none p q e h = absurd cc
begun now k true true false (some r) p q e h = absurd cc
begun now k true true true (some r) p q e h = cc

-- When the server's init() succeeds on a page, CTRL.START is clear and the device state that a
-- plugin reads there is READY; the other bytes are as the kernel gave them but for the start time.
pub server_init_ready :
    (now : ℕ) (k : Kernel) (a : Answers) (p q : Page)
    → a.mapped ≡ some p
    → server_init now k a ≡ some q
    → (has_start q.regs.ctrl ≡ false)
      × (device_state (some q) ≡ ready)
      × (q.dma ≡ p.dma)
      × (q.stats ≡ record p.stats { start_time_sec = now })
unfolding initial_regs has_start device_state
server_init_ready now k a p q e h =
    let same = begun now k a.opens a.truncates a.events a.mapped p q e h in
    (
      ap (λ (x : Page). has_start x.regs.ctrl) same,
      ap (λ (x : Page). device_state (some x)) same,
      ap (λ (x : Page). x.dma) same,
      ap (λ (x : Page). x.stats) same,
    )
