-- ===== src/Pic/Cascade.antt =====
-- pic.cpp: a request of the slave, which the processor gets through line 2 of the master.
use cpu_ia32_cpp.Base.{
  ℕ, ◌+◌, ◌≡◌, refl, ap, ◌∙◌, true, arith, ◌==◌, Option, none, some, u8, bit_or,
}
use mathlib.Core.Path.{subst}
use cpu_ia32_cpp.Base.Bits.{bit_at}
use cpu_ia32_cpp.Pic.State.{Controller, IsController, Pic, first}
use cpu_ia32_cpp.Pic.Update.{
  pic_internal_update, pic_get_interrupt, master_get_interrupt, accept, requested,
  slave_get_interrupt,
}
use cpu_ia32_cpp.Pic.Priority.{level, IsHighest}
use cpu_ia32_cpp.Pic.Levels.{untested, bit_at-toggled, bit_at-set}
use cpu_ia32_cpp.Pic.Sent.{sent, pic_internal_update-sends}
use cpu_ia32_cpp.Pic.Accept.{IsAccepted, answer, answered, is_accepted, still_requested}

module _ (c : Controller) (v : IsController c)
    (pending : bit_at c.highest_priority_irq_to_send c.irr ≡ 1) where
  abbrev pub m : ℕ
  m = c.highest_priority_irq_to_send

  has_request : requested c ≡ some m
  has_request = rw (untested m c.irr v.highest_fits v.irr_fits, pending) refl

  accept-IsAccepted : c.autoeoi ≡ 0 → IsAccepted m c (accept m c)
  accept-IsAccepted e = rw e (record {
    taken = λ k q. bit_at-toggled m k c.irr v.highest_fits q ∙ ground (arith, pending);
    serving = λ k q. bit_at-set m k c.isr v.highest_fits q;
    mask_kept = refl;
    base_kept = refl;
  })

slave_answer : Pic → Option ℕ → ℕ × Pic
slave_answer p o = elim o [
  | none ↦ (bit_or p.slave.vector_offset 7, p)
  | some irq ↦ (u8 (p.slave.vector_offset + irq), record p { slave = accept irq p.slave })
]

module _ (p : Pic) (v : IsController p.master) (u : IsController p.slave) (i : ℕ)
    (h : IsHighest p.master i)
    (pending : bit_at p.slave.highest_priority_irq_to_send p.slave.irr ≡ 1) where
  abbrev irq : ℕ
  irq = p.slave.highest_priority_irq_to_send

  handed_on :
      level p.master i ≡ 2
      → pic_get_interrupt none (pic_internal_update first p) ≡ (
        u8 (p.slave.vector_offset + irq),
        record (answered p v i h) { slave = accept irq p.slave },
      )
  unfolding pic_get_interrupt master_get_interrupt slave_get_interrupt slave_answer
  handed_on cascade =
      let second : (level p.master i == 2) ≡ true = ground arith in
      ap (pic_get_interrupt none) (pic_internal_update-sends p v i h)
      ∙ ap (answer (record (sent p v i) { intr_line = 0 })) (still_requested p v i h)
      ∙ rw second (ap (slave_answer (answered p v i h)) (has_request p.slave u pending))

  -- When place `i` of the master holds the highest request that nothing blocks, its level is 2,
  -- interrupts do not end by themselves on either controller, the slave still requests the level it
  -- has chosen and the local APIC has nothing: after `pic_internal_update` of the master,
  -- `pic_get_interrupt` gives the slave's vector of that level; on both controllers the request, and
  -- no other, has become an interrupt in service; and the processor's line is down.
  pub pic_get_interrupt-cascades :
      level p.master i ≡ 2
      → p.master.autoeoi ≡ 0
      → p.slave.autoeoi ≡ 0
      → let result = pic_get_interrupt none (pic_internal_update first p) in
        (result.0 ≡ u8 (p.slave.vector_offset + irq))
        × IsAccepted 2 p.master result.1.master
        × IsAccepted irq p.slave result.1.slave
        × (result.1.intr_line ≡ 0)
  pic_get_interrupt-cascades cascade e f =
      let master_accepted : IsAccepted 2 p.master (answered p v i h).master =
        subst (λ (k : ℕ). IsAccepted k p.master (answered p v i h).master) cascade
          (is_accepted p v i h e) in
      rw (handed_on cascade) (refl, master_accepted, accept-IsAccepted p.slave u pending f, refl)
