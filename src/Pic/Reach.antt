-- ===== src/Pic/Reach.antt =====
-- pic.cpp: the controllers as a system that the machine drives.
use cpu_ia32_cpp.Base.{ℕ, Option}
use cpu_ia32_cpp.Pic.State.{IsPic, Pic}
use cpu_ia32_cpp.Pic.Update.{pic_raise_irq, pic_lower_irq, pic_get_interrupt}
use cpu_ia32_cpp.Pic.Ports.{pic_writeb, pic_elcr_write, pic_reset}
use cpu_ia32_cpp.Pic.Valid.{pic_raise_irq-IsPic, pic_lower_irq-IsPic, pic_get_interrupt-IsPic}
use cpu_ia32_cpp.Pic.Commands.{pic_writeb-IsPic, pic_elcr_write-IsPic, pic_reset-IsPic}

-- Everything that the rest of the machine can do to the controllers.
pub data Step : Pic → Pic → Type 0 where
  raise_irq : (a : ℕ) (p : Pic) → Step p (pic_raise_irq a p)
  lower_irq : (a : ℕ) (p : Pic) → Step p (pic_lower_irq a p)
  answer : (apic : Option ℕ) (p : Pic) → Step p (pic_get_interrupt apic p).1
  write : (addr value : ℕ) (p : Pic) → Step p (pic_writeb addr value p)
  write_elcr : (addr value : ℕ) (p : Pic) → Step p (pic_elcr_write addr value p)
  reset : (p : Pic) → Step p (pic_reset p)

pub data Reaches (p : Pic) : Pic → Type 0 where
  here : Reaches p p
  next : {q r : Pic} → Reaches p q → Step q r → Reaches p r

step-IsPic : {p q : Pic} → Step p q → IsPic p → IsPic q
step-IsPic (raise_irq a p) v = pic_raise_irq-IsPic a p v
step-IsPic (lower_irq a p) v = pic_lower_irq-IsPic a p v
step-IsPic (answer apic p) v = pic_get_interrupt-IsPic apic p v
step-IsPic (write addr value p) v = pic_writeb-IsPic addr value p v
step-IsPic (write_elcr addr value p) v = pic_elcr_write-IsPic addr value p v
step-IsPic (reset p) v = pic_reset-IsPic p v

-- From controllers with registers within their widths (bytes, and levels below 8), every sequence
-- of raised and lowered lines, answers to the processor, port writes and resets leads to such
-- controllers.
pub Reaches-IsPic : {p q : Pic} → Reaches p q → IsPic p → IsPic q
Reaches-IsPic here v = v
Reaches-IsPic (next r s) v = step-IsPic s (Reaches-IsPic r v)
