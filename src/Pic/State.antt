-- ===== src/Pic/State.antt =====
-- pic.cpp: the two controllers, and what they tell the rest of the machine.
use cpu_ia32_cpp.Base.{ℕ, ◌<◌, List, ◌∷◌}

-- `struct pic_controller`; `raised_intr_line` is never used. The arrays `icw` and `ocw` are
-- functions of the index.
pub record Controller : Type 0 where
  pub vector_offset : ℕ
  pub imr : ℕ
  pub irr : ℕ
  pub isr : ℕ
  pub pin_state : ℕ
  pub icw : ℕ → ℕ
  pub icw_index : ℕ
  pub ocw : ℕ → ℕ
  pub read_isr : ℕ
  pub autoeoi : ℕ
  pub rotate_on_autoeoi : ℕ
  pub priority_base : ℕ
  pub in_initialization : ℕ
  pub highest_priority_irq_to_send : ℕ
  pub elcr : ℕ

-- A call that leaves the component, in order: to the I/O APIC, and
-- `cpu_request_fast_return(EXIT_STATUS_IRQ)`.
pub data Call : Type 0 where
  ioapic_raise_irq ioapic_lower_irq : ℕ → Call
  request_fast_return : Call

-- `pic.ctrl[0]`, `pic.ctrl[1]`, the processor's `m_intr_line_state`, and the calls made, newest
-- first. What the I/O APIC does in such a call is not part of this model.
pub record Pic : Type 0 where
  pub master : Controller
  pub slave : Controller
  pub intr_line : ℕ
  pub calls : List Call

-- Which of the two a pointer `self` is.
pub data Which : Type 0 where
  first second : Which

abbrev pub ctrl : Which → Pic → Controller
ctrl first p = p.master
ctrl second p = p.slave

abbrev pub put_ctrl : Which → Controller → Pic → Pic
put_ctrl first c p = record p { master = c }
put_ctrl second c p = record p { slave = c }

abbrev pub call : Call → Pic → Pic
call e p = record p { calls = e ∷ p.calls }

-- What holds of a controller between two calls.
pub record IsController (c : Controller) : Type 0 where
  pub offset_fits : c.vector_offset < 256
  pub imr_fits : c.imr < 256
  pub irr_fits : c.irr < 256
  pub isr_fits : c.isr < 256
  pub pin_fits : c.pin_state < 256
  pub base_fits : c.priority_base < 8
  pub highest_fits : c.highest_priority_irq_to_send < 8

pub record IsPic (p : Pic) : Type 0 where
  pub master_valid : IsController p.master
  pub slave_valid : IsController p.slave
