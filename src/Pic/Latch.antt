-- ===== src/Pic/Latch.antt =====
-- pic.cpp: raising a line that may be up already.
use cpu_ia32_cpp.Base.{
  ℕ, ◌<◌, bit_and, bit_or, ◌≡◌, refl, ap, ◌∙◌, Bool, true, false, arith, ◌==◌, ◌<<<◌, if◌then◌else◌,
  Bool-cases, inl, inr, Option, none, some,
}
use cpu_ia32_cpp.Base.Bits.{bit_at, bit_or-lt}
use cpu_ia32_cpp.Pic.State.{
  Controller, Pic, Which, first, second, ctrl, put_ctrl, call, request_fast_return,
  ioapic_raise_irq,
}
use cpu_ia32_cpp.Pic.Update.{
  select, choose, update_with, raise_with, master_update, master_raise_irq, master_lower_irq,
  pic_internal_update, pic_internal_raise_irq,
}
use cpu_ia32_cpp.Pic.Levels.{untested, bit_at-set, line-lt}

module _ (signal : Pic → Pic) (w : Which) where
  -- Either nothing is sent, or the controller signals with the request chosen.
  pub update_with-cases :
      (p : Pic) (P : Pic → Type 0)
      → P p
      → ((i : ℕ) → P (signal (put_ctrl w (choose i (ctrl w p)) p)))
      → P (update_with signal w p)
  update_with-cases p P quiet sent =
      elim (select (ctrl w p))
        as (λ (o : Option ℕ).
          P (elim o [ none ↦ p | some i ↦ signal (put_ctrl w (choose i (ctrl w p)) p) ])) [
            | none ↦ quiet
            | some i ↦ sent i
          ]

-- The line up, and its request.
abbrev pub raised : Which → ℕ → Pic → Pic
raised w irq p =
    put_ctrl w
      (record (ctrl w p) {
        pin_state = bit_or (ctrl w p).pin_state (1 <<< irq);
        irr = bit_or (ctrl w p).irr (1 <<< irq);
      })
      p

raised-pin :
    (w : Which) (irq : ℕ) (p : Pic)
    → (ctrl w (raised w irq p)).pin_state ≡ bit_or (ctrl w p).pin_state (1 <<< irq)
raised-pin first irq p = refl
raised-pin second irq p = refl

module _ (update_self : Pic → Pic) (w : Which) (irq : ℕ) where
  pub raise_with-cases :
      (p : Pic) (P : Pic → Type 0)
      → P p
      → P (update_self (raised w irq p))
      → P (raise_with update_self w irq p)
  raise_with-cases p P held edge =
      elim (bit_and (ctrl w p).pin_state (1 <<< irq) == 0)
        as (λ (b : Bool). P (if b then update_self (raised w irq p) else p)) [
          | true ↦ edge
          | false ↦ held
        ]

-- Sending a request leaves the lines of the controller, and the master leaves the slave.
master_update-slave : (p : Pic) → (master_update p).slave ≡ p.slave
unfolding master_update
master_update-slave p =
    update_with-cases (λ p. call request_fast_return (record p { intr_line = 1 })) first p
      (λ q. q.slave ≡ p.slave) refl (λ i. refl)

master_raise_irq-slave : (a : ℕ) (p : Pic) → (master_raise_irq a p).slave ≡ p.slave
unfolding master_raise_irq
master_raise_irq-slave a p =
    raise_with-cases master_update first (bit_and a 7) (call (ioapic_raise_irq a) p)
      (λ q. q.slave ≡ p.slave) refl (master_update-slave _)

pub pic_internal_update-pin :
    (w : Which) (p : Pic) → (ctrl w (pic_internal_update w p)).pin_state ≡ (ctrl w p).pin_state
unfolding pic_internal_update master_update master_lower_irq
pic_internal_update-pin first p =
    update_with-cases (λ p. call request_fast_return (record p { intr_line = 1 })) first p
      (λ q. q.master.pin_state ≡ p.master.pin_state) refl (λ i. refl)
pic_internal_update-pin second p =
    update_with-cases (λ q. master_raise_irq 2 (master_lower_irq 2 q)) second p
      (λ q. q.slave.pin_state ≡ p.slave.pin_state) refl
      (λ i. ap (λ (c : Controller). c.pin_state) (master_raise_irq-slave 2 _))

module _ (w : Which) (irq : ℕ) (p : Pic) (h : irq < 8) (v : (ctrl w p).pin_state < 256) where
  -- A line that is up.
  held :
      (q : Pic)
      → bit_at irq (ctrl w q).pin_state ≡ 1
      → (ctrl w q).pin_state < 256
      → pic_internal_raise_irq w irq q ≡ q
  unfolding pic_internal_raise_irq
  held q e fits = rw (untested irq (ctrl w q).pin_state h fits, e) refl

  edge :
      (bit_and (ctrl w p).pin_state (1 <<< irq) == 0) ≡ true
      → pic_internal_raise_irq w irq p ≡ pic_internal_update w (raised w irq p)
  unfolding pic_internal_raise_irq
  edge down = ap (λ (b : Bool). if b then pic_internal_update w (raised w irq p) else p) down

  level :
      (bit_and (ctrl w p).pin_state (1 <<< irq) == 0) ≡ false → pic_internal_raise_irq w irq p ≡ p
  unfolding pic_internal_raise_irq
  level up = ap (λ (b : Bool). if b then pic_internal_update w (raised w irq p) else p) up

  -- `pic_internal_raise_irq` on a line that the same call has just raised changes nothing, on either
  -- controller, for a line below 8 and a `pin_state` that fits a byte.
  pic_internal_raise_irq-twice :
      pic_internal_raise_irq w irq (pic_internal_raise_irq w irq p) ≡ pic_internal_raise_irq w irq p
  pic_internal_raise_irq-twice = elim (Bool-cases (bit_and (ctrl w p).pin_state (1 <<< irq) == 0)) [
    | inl down ↦
        let pin : (ctrl w (pic_internal_raise_irq w irq p)).pin_state
            ≡ bit_or (ctrl w p).pin_state (1 <<< irq) =
          ap (λ (q : Pic). (ctrl w q).pin_state) (edge down)
          ∙ pic_internal_update-pin w (raised w irq p)
          ∙ raised-pin w irq p in
        held (pic_internal_raise_irq w irq p)
          (ap (bit_at irq) pin ∙ bit_at-set irq irq (ctrl w p).pin_state h h ∙ ground arith)
          (rw pin (bit_or-lt 8 _ _ v (line-lt irq h)))
    | inr up ↦ ap (pic_internal_raise_irq w irq) (level up)
  ]
