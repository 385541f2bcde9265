-- ===== src/Pic/Accept.antt =====
-- What the processor gets when it answers the line, and what that does to the request.
use cpu_ia32_cpp.Base.{
  ℕ, ◌+◌, ◌<◌, bit_or, ◌≡◌, ◌≢◌, refl, ap, ◌∙◌, false, arith, ◌==◌, if◌then◌else◌, Option, none,
  some, u8, ◌∷◌,
}
use cpu_ia32_cpp.Base.Bits.{bit_at, bit_at-lt}
use cpu_ia32_cpp.Pic.State.{Controller, IsController, Pic, first, request_fast_return}
use cpu_ia32_cpp.Pic.Update.{
  pic_internal_update, pic_get_interrupt, master_get_interrupt, accept, requested,
  slave_get_interrupt,
}
use cpu_ia32_cpp.Pic.Priority.{level, in_service, IsHighest}
use cpu_ia32_cpp.Pic.Levels.{untested, bit_at-toggled, bit_at-set}
use cpu_ia32_cpp.Pic.Sent.{sent, pic_internal_update-sends}

-- The request of level `n` has become an interrupt in service, and nothing else has changed there.
pub record IsAccepted (n : ℕ) (before after : Controller) : Type 0 where
  pub taken : (k : ℕ) → k < 8 → bit_at k after.irr ≡ (if k == n then 0 else bit_at k before.irr)
  pub serving : (k : ℕ) → k < 8 → in_service after k ≡ (if k == n then 1 else in_service before k)
  pub mask_kept : after.imr ≡ before.imr
  pub base_kept : after.priority_base ≡ before.priority_base

-- What the answer is, by what the master has requested.
abbrev pub answer : Pic → Option ℕ → ℕ × Pic
answer p o = elim o [
  | none ↦ (bit_or p.master.vector_offset 7, p)
  | some irq ↦
      let p' = record p { master = accept irq p.master } in
      if irq == 2 then slave_get_interrupt p' else (u8 (p.master.vector_offset + irq), p')
]

master_get_interrupt-direct :
    (p : Pic) (irq : ℕ)
    → requested p.master ≡ some irq
    → irq ≢ 2
    → master_get_interrupt p
      ≡ (u8 (p.master.vector_offset + irq), record p { master = accept irq p.master })
unfolding master_get_interrupt
master_get_interrupt-direct p irq e direct =
    let other : (irq == 2) ≡ false = ground arith in ap (answer p) e ∙ rw other refl

module _ (p : Pic) (v : IsController p.master) (i : ℕ) (h : IsHighest p.master i) where
  abbrev pub n : ℕ
  n = level p.master i

  pending : bit_at n p.master.irr ≡ 1
  pending = ground (arith, h.requested, bit_at-lt n p.master.irr)

  pub still_requested : requested (sent p v i).master ≡ some n
  still_requested = rw (untested n p.master.irr (omega arith) v.irr_fits, pending) refl

  abbrev pub answered : Pic
  answered = record p {
    master = accept n (record p.master { highest_priority_irq_to_send = n });
    calls = request_fast_return ∷ p.calls;
    intr_line = 0;
  }

  handed_over :
      n ≢ 2
      → pic_get_interrupt none (pic_internal_update first p)
        ≡ (u8 (p.master.vector_offset + n), answered)
  unfolding pic_get_interrupt
  handed_over direct =
      ap (pic_get_interrupt none) (pic_internal_update-sends p v i h)
      ∙ master_get_interrupt-direct (record (sent p v i) { intr_line = 0 }) n still_requested direct

  pub is_accepted : p.master.autoeoi ≡ 0 → IsAccepted n p.master answered.master
  is_accepted e = rw e (record {
    taken = λ k q. bit_at-toggled n k p.master.irr (omega arith) q ∙ ground (arith, pending);
    serving = λ k q. bit_at-set n k p.master.isr (omega arith) q;
    mask_kept = refl;
    base_kept = refl;
  })

  -- When place `i` of the master holds the highest request that nothing blocks, its level is not the
  -- slave's line 2, interrupts do not end by themselves and the local APIC has nothing: after
  -- `pic_internal_update`, `pic_get_interrupt` gives the vector of that level; the request, and no
  -- other, has become an interrupt in service; the mask, the priority base and the slave are as
  -- before; and the processor's line is down.
  pub pic_get_interrupt-accepts :
      n ≢ 2
      → p.master.autoeoi ≡ 0
      → let result = pic_get_interrupt none (pic_internal_update first p) in
        (result.0 ≡ u8 (p.master.vector_offset + n))
        × IsAccepted n p.master result.1.master
        × (result.1.slave ≡ p.slave)
        × (result.1.intr_line ≡ 0)
  pic_get_interrupt-accepts direct e = rw (handed_over direct) (refl, is_accepted e, refl, refl)
