-- ===== src/Pic/Sent.antt =====
-- What `pic_internal_update` does, by the priority order.
use cpu_ia32_cpp.Base.{
  not8, ℕ, ◌+◌, ◌≡◌, ◌↔◌, sym, ap, ◌∙◌, false, Option, none, some, arith, ◌==◌, ==_iff, Bool-cases,
  inl, inr, Option-cases,
}
use cpu_ia32_cpp.Base.Bits.{bit_at, zero-bit_at, bit_at-bit_and, bit_and-mask}
use cpu_ia32_cpp.Pic.State.{
  Controller, IsController, Pic, first, request_fast_return, put_ctrl, call,
}
use cpu_ia32_cpp.Pic.Update.{select, choose, pic_internal_update}
use cpu_ia32_cpp.Pic.Bits.{bit_at-not8}
use cpu_ia32_cpp.Base.{◌∷◌}
use cpu_ia32_cpp.Pic.Scan.{test, scan-IsFirst, scan_complete, scan_normal-scan, scan_special-scan}
use cpu_ia32_cpp.Pic.Update.{master_update}
use cpu_ia32_cpp.Pic.Priority.{
  IsHighest, level, special_mask, rot, rot_isr, rot_special, unmasked, IsFirst-IsHighest_normal,
  IsHighest-IsFirst_normal, IsFirst-IsHighest_special, IsHighest-IsFirst_special,
}

module _ (c : Controller) (v : IsController c) (i : ℕ) where
  -- Without a request there is nothing to send.
  requested-unmasked : IsHighest c i → (unmasked c v == 0) ≡ false
  requested-unmasked h = elim (Bool-cases (unmasked c v == 0)) [
    | inl empty ↦
        let none_left : unmasked c v ≡ 0 = (==_iff (unmasked c v) 0).0 empty in
        absurd (
          ground (
            arith,
            h.requested,
            bit_at-bit_and (level c i) c.irr (not8 c.imr),
            bit_at-not8 (level c i) c.imr (omega arith) v.imr_fits,
            ap (bit_at (level c i)) none_left,
            zero-bit_at (level c i),
          ))
    | inr some_left ↦ some_left
  ]

  -- The search of `pic_internal_update`, on registers within their widths: it finds place `i` exactly
  -- when that place, counted from the highest priority, is requested, not masked and not in service
  -- and no place before it is in its way: by a request outside service in the special mask mode, by a
  -- request or an interrupt in service otherwise.
  pub select-IsHighest : (select c ≡ some i) ↔ IsHighest c i
  unfolding select
  select-IsHighest = (forward, backward)
    where
      forward : select c ≡ some i → IsHighest c i
      forward e = elim (Bool-cases (unmasked c v == 0)) [
        | inl empty ↦ cc (rw empty at e)
        | inr left ↦ elim (Bool-cases (special_mask c)) [
          | inl mode ↦
              let (f, h) =
                scan-IsFirst (λ _. false) (test (rot_special c v)) 8 0 i
                  (sym (scan_special-scan 8 0 (rot_special c v)) ∙ (rw (left, mode) at e)) in
              IsFirst-IsHighest_special c v i mode f h
          | inr mode ↦
              let (f, h) =
                scan-IsFirst (test (rot_isr c v)) (test (rot c v)) 8 0 i
                  (sym (scan_normal-scan 8 0 (rot_isr c v) (rot c v)) ∙ (rw (left, mode) at e)) in
              IsFirst-IsHighest_normal c v i mode f h
        ]
      ]

      backward : IsHighest c i → select c ≡ some i
      backward h = elim (Bool-cases (special_mask c)) [
        | inl mode ↦
            rw (requested-unmasked h, mode)
              (scan_special-scan 8 0 (rot_special c v)
                ∙ scan_complete (λ _. false) (test (rot_special c v)) 8 0 i
                    (IsHighest-IsFirst_special c v i mode h) h.in_range)
        | inr mode ↦
            rw (requested-unmasked h, mode)
              (scan_normal-scan 8 0 (rot_isr c v) (rot c v)
                ∙ scan_complete (test (rot_isr c v)) (test (rot c v)) 8 0 i
                    (IsHighest-IsFirst_normal c v i mode h) h.in_range)
      ]

-- The master raises the processor's line and makes it look when a request is to be sent, and
-- remembers which; with no such request the update changes nothing.
module _ (p : Pic) (v : IsController p.master) where
  abbrev pub sent : ℕ → Pic
  sent i = record p {
    master = record p.master { highest_priority_irq_to_send = level p.master i };
    intr_line = 1;
    calls = request_fast_return ∷ p.calls;
  }

  outcome : Option ℕ → Pic
  outcome o = elim o [
    | none ↦ p
    | some i ↦
        call request_fast_return (record (put_ctrl first (choose i p.master) p) { intr_line = 1 })
  ]

  -- `pic_internal_update` of the master, its registers within their widths, when place `i` holds the
  -- highest request that nothing blocks: the level of that place becomes the one to send, the
  -- processor's line is raised, the processor is asked to look, and nothing else changes.
  pub pic_internal_update-sends :
      (i : ℕ) → IsHighest p.master i → pic_internal_update first p ≡ sent i
  unfolding pic_internal_update master_update outcome
  pic_internal_update-sends i h =
      ap outcome ((select-IsHighest p.master v i).1 h)
      ∙ ap
          (λ (n : ℕ). record p {
            master = record p.master { highest_priority_irq_to_send = n };
            intr_line = 1;
            calls = request_fast_return ∷ p.calls;
          })
          (bit_and-mask 3 (p.master.priority_base + 1 + i))

  -- `pic_internal_update` of the master, its registers within their widths, changes nothing when no
  -- place holds a request that is the highest and that nothing blocks.
  pic_internal_update-quiet : ((i : ℕ) → ¬ IsHighest p.master i) → pic_internal_update first p ≡ p
  unfolding pic_internal_update master_update outcome
  pic_internal_update-quiet none_such = elim (Option-cases (select p.master)) [
    | inl nothing ↦ ap outcome nothing
    | inr (i, e) ↦ absurd (none_such i ((select-IsHighest p.master v i).0 e))
  ]
