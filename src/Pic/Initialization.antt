-- ===== src/Pic/Initialization.antt =====
-- pic.cpp: the sequence of command words that sets a controller up.
use cpu_ia32_cpp.Base.{ℕ, ◌+◌, ◌≡◌, refl, bit_and, u8, ◌>>>◌, not8}
use cpu_ia32_cpp.Pic.State.{Controller, Pic, Which, first, second, ctrl}
use cpu_ia32_cpp.Pic.Ports.{pic_writeb, pic_write_icw}

-- The even port of a controller.
abbrev pub command_port : Which → ℕ
command_port first = 0x20
command_port second = 0xa0

abbrev pub initialize : Which → ℕ → ℕ → ℕ → ℕ → Pic → Pic
initialize w icw1 icw2 icw3 icw4 p = pic_writeb (command_port w + 1) icw4 (
    pic_writeb (command_port w + 1) icw3
      (pic_writeb (command_port w + 1) icw2 (pic_writeb (command_port w) icw1 p)))

-- A controller that is set up: ready, with nothing masked, requested or in service.
pub record IsReady (icw2 icw4 : ℕ) (c : Controller) : Type 0 where
  pub done : c.in_initialization ≡ 0
  pub offset : c.vector_offset ≡ bit_and (u8 icw2) (not8 7)
  pub mask : c.imr ≡ 0
  pub request : c.irr ≡ 0
  pub service : c.isr ≡ 0
  pub base : c.priority_base ≡ 7
  pub end : c.autoeoi ≡ bit_and (u8 icw4) 2

module _ (icw1 icw2 icw3 icw4 : ℕ) (p : Pic) (starts : bit_and (icw1 >>> 3) 3 ≡ 2)
    (cascaded : bit_and (u8 icw1) 2 ≡ 0) (long : bit_and (u8 icw1) 1 ≡ 1) where
  -- The four command words ICW1 to ICW4, written to the ports of either controller, where ICW1 is
  -- one for edges (its bits 3 and 4 are 0 and 1), announces the cascade and announces ICW4: the
  -- controller is ready, with the vector offset of ICW2 and the automatic end of ICW4, and nothing is
  -- masked, requested or in service.
  pub initialize-IsReady :
      (w : Which) → IsReady icw2 icw4 (ctrl w (initialize w icw1 icw2 icw3 icw4 p))
  unfolding pic_writeb pic_write_icw
  initialize-IsReady first =
      rw (starts, cascaded, long)
        (record {
          done = refl;
          offset = refl;
          mask = refl;
          request = refl;
          service = refl;
          base = refl;
          end = refl;
        })
  initialize-IsReady second =
      rw (starts, cascaded, long)
        (record {
          done = refl;
          offset = refl;
          mask = refl;
          request = refl;
          service = refl;
          base = refl;
          end = refl;
        })
