-- ===== src/SendIrq.antt =====
-- arm_simulator-1.4/send_irq.c: the choice of the interrupt to send.
pub mod Choice
use uga_prog.Base.{
  ℕ, zero, suc, ◌+◌, List, [], ◌∷◌, ◌++◌, Option, none, some, u8, ◌==◌, if◌then◌else◌,
}
use uga_prog.Base.Outcome.{Outcome, Stop, ok, stop}
use uga_prog.Constants.{reset, interrupt}
use uga_prog.Text.{codes, same_text}
use uga_prog.Names.{arm_get_exception_name}

-- The search from `irq` on; `rounds` cuts it off.
unfoldable pub search_irq : ℕ → List ℕ → ℕ → Outcome ℕ
search_irq zero name irq = stop Stop.unfinished
search_irq (suc rounds) name irq =
    let rest = search_irq rounds name (u8 (irq + 1)) in
    elim (arm_get_exception_name irq) [
      | none ↦ stop (Stop.exited 2)
      | some irq_name ↦ if same_text irq_name name then ok irq else rest
    ]

-- The interrupt for the arguments behind the name of the program: the host, the port, and the name of
-- an interrupt. There are seven names.
unfoldable pub irq_to_send : List (List ℕ) → Outcome ℕ
unfolding search_irq
irq_to_send (host ∷ port ∷ []) = ok interrupt
irq_to_send (host ∷ port ∷ name ∷ others) = search_irq 8 name reset
irq_to_send _ = stop (Stop.exited 1)

-- The lines of the usage, from `irq` on.
unfoldable pub usage_names : ℕ → ℕ → List (List ℕ)
usage_names zero irq = []
usage_names (suc rounds) irq =
    let rest = usage_names rounds (u8 (irq + 1)) in
    elim (arm_get_exception_name irq) [
      | none ↦ []
      | some irq_name ↦
          (irq_name ++ ((if irq == interrupt then 9 ∷ 9 ∷ codes "(default)" else []) ++ 10 ∷ []))
          ∷ rest
    ]
