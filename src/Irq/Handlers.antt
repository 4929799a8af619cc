-- ===== src/Irq/Handlers.antt =====
-- Which handler an interrupt runs, after any sequence of registrations.
use arm64_os.Base.{
  ℕ, ◌<◌, ◌≡◌, refl, List, [], ◌∷◌, arith, false, leb, ◌==◌, ◌&&◌, if◌then◌else◌, ◌∙◌, ap,
}
use arm64_os.Irq.{Irqs, num_irqs, irq_init, irq_set, call_if, handle_irq}

-- a call of `irq_set`
pub record Request : Type 0 where
  pub cpu : ℕ
  pub irqnr : ℕ
  pub func : ℕ

abbrev pub set_all : List Request → Irqs → Irqs
set_all [] s = s
set_all (r ∷ rs) s = set_all rs (irq_set r.cpu r.irqnr r.func s).0

-- the first request for the interrupt that has a handler, or else what was there
abbrev pub first_handler : ℕ → ℕ → ℕ → List Request → ℕ
first_handler cpu irqnr old [] = old
first_handler cpu irqnr old (r ∷ rs) =
    let new = if ((r.cpu == cpu) && (r.irqnr == irqnr)) && (old == 0) then r.func else old in
    first_handler cpu irqnr new rs

set-first :
    (cpu irqnr : ℕ) (r : Request) (s : Irqs)
    → irqnr < num_irqs
    → (irq_set r.cpu r.irqnr r.func s).0.percpu_irq_tables cpu irqnr ≡ (
        if ((r.cpu == cpu) && (r.irqnr == irqnr)) && (s.percpu_irq_tables cpu irqnr == 0)
        then r.func
        else s.percpu_irq_tables cpu irqnr)
unfolding irq_set
set-first cpu irqnr r s lt = ground arith

tables-set_all :
    (cpu irqnr : ℕ) (rs : List Request) (s : Irqs)
    → irqnr < num_irqs
    → (set_all rs s).percpu_irq_tables cpu irqnr
      ≡ first_handler cpu irqnr (s.percpu_irq_tables cpu irqnr) rs
tables-set_all cpu irqnr [] s lt = refl
tables-set_all cpu irqnr (r ∷ rs) s lt =
    tables-set_all cpu irqnr rs (irq_set r.cpu r.irqnr r.func s).0 lt
    ∙ ap (λ f. first_handler cpu irqnr f rs) (set-first cpu irqnr r s lt)

hook-set_all : (rs : List Request) (s : Irqs) → (set_all rs s).irq_post_hook ≡ s.irq_post_hook
unfolding irq_set
hook-set_all [] s = refl
hook-set_all (r ∷ rs) s = hook-set_all rs (irq_set r.cpu r.irqnr r.func s).0 ∙ ground arith

-- After `irq_init` and any sequence of registrations, an interrupt in range runs the handler of the
-- first registration for its core and number that names one, if there is any, and then the hook that
-- is set at that time. Later registrations for the same interrupt have no effect.
pub handle_irq-set_all :
    {W : Type 0} (call : ℕ → Irqs × W → Irqs × W) (cpu irqnr : ℕ) (rs : List Request) (s : Irqs)
    (w : W)
    → irqnr < num_irqs
    → handle_irq call cpu irqnr (set_all rs (irq_init s), w) ≡ (
        let m = call_if call (first_handler cpu irqnr 0 rs) (set_all rs (irq_init s), w) in
        call_if call m.0.irq_post_hook m)
unfolding handle_irq irq_init
handle_irq-set_all call cpu irqnr rs s w lt =
    let in_range : leb num_irqs irqnr ≡ false = ground arith in
    rw (in_range, tables-set_all cpu irqnr rs (irq_init s) lt) refl
