-- ===== src/Irq/Tests.antt =====
-- Three registrations, two of them for one interrupt; handlers log their address.
use arm64_os.Base.{ℕ, ◌≡◌, refl, List, [], ◌∷◌, ◌++◌, arith}
use arm64_os.Irq.{Irqs, irq_init, irq_set, handle_irq, call_if}
use arm64_os.Irq.Handlers.{Request, set_all, handle_irq-set_all}

abbrev fresh : Irqs
fresh = record {
  percpu_irq_tables = λ cpu irqnr. 7;
  local_irq_tables = λ cpu. 0;
  irq_post_hook = 0x99;
}

abbrev requests : List Request
requests =
    (record { cpu = 0; irqnr = 5; func = 0x10 })
    ∷ (record { cpu = 1; irqnr = 5; func = 0x20 })
    ∷ (record { cpu = 0; irqnr = 5; func = 0x30 })
    ∷ []

abbrev logging : ℕ → Irqs × List ℕ → Irqs × List ℕ
logging func m = (m.0, m.1 ++ (func ∷ []))

first_runs : (handle_irq logging 0 5 (set_all requests (irq_init fresh), [])).1 ≡ 0x10 ∷ 0x99 ∷ []
unfolding handle_irq irq_init irq_set
first_runs = refl

handle_irq-set_all_example : handle_irq logging 0 5 (set_all requests (irq_init fresh), []) ≡ (
    let m = call_if logging 0x10 (set_all requests (irq_init fresh), []) in
    call_if logging m.0.irq_post_hook m)
handle_irq-set_all_example = handle_irq-set_all logging 0 5 requests fresh [] (omega arith)
