-- ===== src/Irq.antt =====
-- irq.c: the tables of handlers. A handler is its address, and 0 is NULL; the code at an address is
-- the parameter `call`, which may change the tables. An interrupt number is an `int` that is not
-- negative, as the interrupt controller gives it.
pub mod Handlers
mod Tests
use arm64_os.Base.Maps.{update}
use arm64_os.Base.{ℕ, List, [], ◌∷◌, leb, ◌==◌, not, if◌then◌else◌}
use arm64_os.Base.Errors.{ErrorCode, err_ok, err_inval_arg, err_busy}

pub record Irqs : Type 0 where
  pub percpu_irq_tables : ℕ → ℕ → ℕ
  pub local_irq_tables : ℕ → ℕ
  pub irq_post_hook : ℕ

abbrev pub num_irqs : ℕ
num_irqs = 128

unfoldable pub irq_init : Irqs → Irqs
irq_init s = record s { percpu_irq_tables = λ cpu irqnr. 0 }

unfoldable pub irq_set_post_hook : ℕ → Irqs → Irqs
irq_set_post_hook hook s = record s { irq_post_hook = hook }

unfoldable pub irq_set : ℕ → ℕ → ℕ → Irqs → Irqs × ErrorCode
irq_set cpu irqnr func s =
    if leb num_irqs irqnr
    then (s, err_inval_arg)
    else if not (s.percpu_irq_tables cpu irqnr == 0)
    then (s, err_busy)
    else (
      record s {
        percpu_irq_tables =
            update s.percpu_irq_tables cpu (update (s.percpu_irq_tables cpu) irqnr func);
      },
      err_ok,
    )

unfoldable pub irq_local_set : ℕ → ℕ → Irqs → Irqs × ErrorCode
irq_local_set cpu func s =
    (record s { local_irq_tables = update s.local_irq_tables cpu func }, err_ok)

-- The tables and the rest of the machine, which handlers act on.
module _ {W : Type 0} (call : ℕ → Irqs × W → Irqs × W) where
  abbrev pub call_if : ℕ → Irqs × W → Irqs × W
  call_if func m = if func == 0 then m else call func m

  unfoldable pub handle_irq : ℕ → ℕ → Irqs × W → Irqs × W
  handle_irq cpu irqnr m =
      if leb num_irqs irqnr
      then m
      else let m1 = call_if (m.0.percpu_irq_tables cpu irqnr) m in call_if m1.0.irq_post_hook m1

  unfoldable pub handle_local_periph_irq : ℕ → Irqs × W → Irqs × W
  handle_local_periph_irq cpu m = call_if (m.0.local_irq_tables cpu) m
