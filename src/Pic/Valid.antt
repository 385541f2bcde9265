-- ===== src/Pic/Valid.antt =====
-- pic.cpp: the widths of the registers, under the lines and the answer to the processor.
use cpu_ia32_cpp.Base.{
  not8, ℕ, ◌+◌, ◌<◌, bit_and, bit_or, bit_xor, ◌≡◌, refl, Bool, true, false, arith, ◌==◌, ◌<<<◌,
  if◌then◌else◌, Option, none, some, u8,
}
use cpu_ia32_cpp.Base.Bits.{bit_or-lt, bit_xor-lt, bit_and-lt}
use cpu_ia32_cpp.Pic.State.{
  Controller, IsController, IsPic, Pic, Which, first, second, ctrl, put_ctrl, call,
  request_fast_return,
}
use cpu_ia32_cpp.Pic.Update.{
  choose, update_with, raise_with, lower_self, accept, requested, master_update, master_raise_irq,
  master_lower_irq, pic_internal_update, pic_internal_raise_irq, pic_internal_lower_irq,
  pic_raise_irq, pic_lower_irq, which_of, slave_get_interrupt, master_get_interrupt,
  pic_get_interrupt,
}
use cpu_ia32_cpp.Pic.Levels.{line-lt, low3}
use cpu_ia32_cpp.Pic.Accept.{answer}
use cpu_ia32_cpp.Pic.Latch.{update_with-cases, raise_with-cases, raised}

pub if-keeps :
    {A : Type 0} (P : A → Type 0) (b : Bool) (x y : A) → P x → P y → P (if b then x else y)
if-keeps P true x y p q = p
if-keeps P false x y p q = q

pub ctrl-IsController : (w : Which) (p : Pic) → IsPic p → IsController (ctrl w p)
ctrl-IsController first p v = v.master_valid
ctrl-IsController second p v = v.slave_valid

pub put_ctrl-IsPic :
    (w : Which) (c : Controller) (p : Pic) → IsController c → IsPic p → IsPic (put_ctrl w c p)
put_ctrl-IsPic first c p u v = record { master_valid = u; slave_valid = v.slave_valid }
put_ctrl-IsPic second c p u v = record { master_valid = v.master_valid; slave_valid = u }

-- The fields outside the controllers do not matter.
pub outside-IsPic : (p q : Pic) → q.master ≡ p.master → q.slave ≡ p.slave → IsPic p → IsPic q
outside-IsPic p q e f v = record {
  master_valid = rw e v.master_valid;
  slave_valid = rw f v.slave_valid;
}

pub low3-lt : (a : ℕ) → bit_and a 7 < 8
low3-lt a = rw (low3 a) (omega arith)

module _ (c : Controller) (v : IsController c) where
  choose-IsController : (i : ℕ) → IsController (choose i c)
  choose-IsController i = record {
    offset_fits = v.offset_fits;
    imr_fits = v.imr_fits;
    irr_fits = v.irr_fits;
    isr_fits = v.isr_fits;
    pin_fits = v.pin_fits;
    base_fits = v.base_fits;
    highest_fits = low3-lt (c.priority_base + 1 + i);
  }

  raised-IsController :
      (irq : ℕ)
      → irq < 8
      → IsController
          (record c { pin_state = bit_or c.pin_state (1 <<< irq); irr = bit_or c.irr (1 <<< irq) })
  raised-IsController irq h = record {
    offset_fits = v.offset_fits;
    imr_fits = v.imr_fits;
    irr_fits = bit_or-lt 8 _ _ v.irr_fits (line-lt irq h);
    isr_fits = v.isr_fits;
    pin_fits = bit_or-lt 8 _ _ v.pin_fits (line-lt irq h);
    base_fits = v.base_fits;
    highest_fits = v.highest_fits;
  }

  lower_self-IsController : (irq : ℕ) → IsController (lower_self irq c)
  lower_self-IsController irq = record {
    offset_fits = v.offset_fits;
    imr_fits = v.imr_fits;
    irr_fits = bit_and-lt 8 _ _ (omega arith);
    isr_fits = v.isr_fits;
    pin_fits = bit_and-lt 8 _ _ (omega arith);
    base_fits = v.base_fits;
    highest_fits = v.highest_fits;
  }

  accept-IsController : (irq : ℕ) → irq < 8 → IsController (accept irq c)
  accept-IsController irq h =
      if-keeps IsController (c.autoeoi == 0) _ _
        (taken c.priority_base _ (bit_or-lt 8 _ _ v.isr_fits (line-lt irq h)) v.base_fits)
        (if-keeps IsController (c.rotate_on_autoeoi == 0) _ _
          (taken c.priority_base c.isr v.isr_fits v.base_fits) (taken irq c.isr v.isr_fits h))
    where
      taken :
          (base isr : ℕ)
          → isr < 256
          → base < 8
          → IsController
              (record c { irr = bit_xor c.irr (1 <<< irq); isr = isr; priority_base = base })
      taken base isr f g = record {
        offset_fits = v.offset_fits;
        imr_fits = v.imr_fits;
        irr_fits = bit_xor-lt 8 _ _ v.irr_fits (line-lt irq h);
        isr_fits = f;
        pin_fits = v.pin_fits;
        base_fits = g;
        highest_fits = v.highest_fits;
      }

abbrev pub Keeps : (Pic → Pic) → Type 0
Keeps f = (p : Pic) → IsPic p → IsPic (f p)

update_with-IsPic : (signal : Pic → Pic) (w : Which) → Keeps signal → Keeps (update_with signal w)
update_with-IsPic signal w k p v =
    update_with-cases signal w p IsPic v
      λ i. k _ (put_ctrl-IsPic w _ p (choose-IsController (ctrl w p) (ctrl-IsController w p v) i) v)

raise_with-IsPic :
    (update_self : Pic → Pic) (w : Which) (irq : ℕ)
    → irq < 8
    → Keeps update_self
    → Keeps (raise_with update_self w irq)
raise_with-IsPic update_self w irq h k p v = raise_with-cases update_self w irq p IsPic v (
    k (raised w irq p)
      (put_ctrl-IsPic w _ p (raised-IsController (ctrl w p) (ctrl-IsController w p v) irq h) v))

master_update-IsPic : Keeps master_update
unfolding master_update
master_update-IsPic =
    update_with-IsPic (λ p. call request_fast_return (record p { intr_line = 1 })) first
      λ p v. outside-IsPic p _ refl refl v

master_raise_irq-IsPic : (a : ℕ) → Keeps (master_raise_irq a)
unfolding master_raise_irq
master_raise_irq-IsPic a p v =
    raise_with-IsPic master_update first (bit_and a 7) (low3-lt a) master_update-IsPic _
      (outside-IsPic p _ refl refl v)

master_lower_irq-IsPic : (a : ℕ) → Keeps (master_lower_irq a)
unfolding master_lower_irq
master_lower_irq-IsPic a p v = record {
  master_valid = lower_self-IsController p.master v.master_valid (bit_and a 7);
  slave_valid = v.slave_valid;
}

pub pic_internal_update-IsPic : (w : Which) → Keeps (pic_internal_update w)
unfolding pic_internal_update
pic_internal_update-IsPic first = master_update-IsPic
pic_internal_update-IsPic second =
    update_with-IsPic (λ q. master_raise_irq 2 (master_lower_irq 2 q)) second
      λ p v. master_raise_irq-IsPic 2 _ (master_lower_irq-IsPic 2 p v)

pub pic_raise_irq-IsPic : (a : ℕ) → Keeps (pic_raise_irq a)
unfolding pic_raise_irq pic_internal_raise_irq
pic_raise_irq-IsPic a p v =
    raise_with-IsPic (pic_internal_update (which_of a)) (which_of a) (bit_and a 7) (low3-lt a)
      (pic_internal_update-IsPic (which_of a)) _ (outside-IsPic p _ refl refl v)

pic_internal_lower_irq-IsPic : (w : Which) (irq : ℕ) → Keeps (pic_internal_lower_irq w irq)
unfolding pic_internal_lower_irq
pic_internal_lower_irq-IsPic first irq p v =
    put_ctrl-IsPic first _ p (lower_self-IsController p.master v.master_valid irq) v
pic_internal_lower_irq-IsPic second irq p v =
    let v' = put_ctrl-IsPic second _ p (lower_self-IsController p.slave v.slave_valid irq) v in
    if-keeps IsPic (bit_and p.slave.irr (not8 (1 <<< irq)) == 0) _ _ (master_lower_irq-IsPic 2 _ v')
      v'

pub pic_lower_irq-IsPic : (a : ℕ) → Keeps (pic_lower_irq a)
unfolding pic_lower_irq
pic_lower_irq-IsPic a p v =
    pic_internal_lower_irq-IsPic (which_of a) (bit_and a 7) _ (outside-IsPic p _ refl refl v)

requested-cases :
    (c : Controller) (P : Option ℕ → Type 0)
    → P none
    → P (some c.highest_priority_irq_to_send)
    → P (requested c)
requested-cases c P gone there =
    elim (bit_and c.irr (1 <<< c.highest_priority_irq_to_send) == 0)
      as (λ (b : Bool). P (if b then none else some c.highest_priority_irq_to_send)) [
        | true ↦ gone
        | false ↦ there
      ]

slave_answer : Pic → Option ℕ → ℕ × Pic
slave_answer p o = elim o [
  | none ↦ (bit_or p.slave.vector_offset 7, p)
  | some irq ↦ (u8 (p.slave.vector_offset + irq), record p { slave = accept irq p.slave })
]

slave_get_interrupt-IsPic : (p : Pic) → IsPic p → IsPic (slave_get_interrupt p).1
unfolding slave_get_interrupt slave_answer
slave_get_interrupt-IsPic p v =
    requested-cases p.slave (λ o. IsPic (slave_answer p o).1) v
      (put_ctrl-IsPic second _ p
        (accept-IsController p.slave v.slave_valid _ v.slave_valid.highest_fits) v)

master_get_interrupt-IsPic : (p : Pic) → IsPic p → IsPic (master_get_interrupt p).1
unfolding master_get_interrupt
master_get_interrupt-IsPic p v =
    let irq = p.master.highest_priority_irq_to_send in
    let p' = record p { master = accept irq p.master } in
    let v' : IsPic p' =
      put_ctrl-IsPic first _ p
        (accept-IsController p.master v.master_valid irq v.master_valid.highest_fits) v in
    requested-cases p.master (λ o. IsPic (answer p o).1) v
      (if-keeps (λ (r : ℕ × Pic). IsPic r.1) (irq == 2) _ _ (slave_get_interrupt-IsPic p' v') v')

pub pic_get_interrupt-IsPic :
    (apic : Option ℕ) (p : Pic) → IsPic p → IsPic (pic_get_interrupt apic p).1
unfolding pic_get_interrupt
pic_get_interrupt-IsPic (some vector) p v = v
pic_get_interrupt-IsPic none p v = master_get_interrupt-IsPic _ (outside-IsPic p _ refl refl v)
