-- ===== src/Storage/Sata/Controller.antt =====
-- SATA::Controller of src/Storage/SATA.cpp: the reset of an AHCI controller, the handoff from the
-- BIOS, and the start of its ports. `M` is the state of the machine; the name of the handoff that is
-- printed is left out.
use Prim.Native.Nat.{bit_and, bit_or}
use crack_os.Base.{ℕ, zero, suc, ◌+◌, ◌/◌, ◌%◌, ◌^◌, Bool, true, false, not}
use crack_os.Base.{◌==◌, ◌&&◌, if◌then◌else◌, Run, ok, out_of_fuel, ◌>>=◌}

-- The fields of Controller that are read from the device.
pub record Controller : Type 0 where
  pub ports_available : ℕ
  pub capabilities : ℕ
  pub capabilities2 : ℕ
  pub version : ℕ

-- The registers of the controller, as `getABAR()[offset]`.
pub record Abar (M : Type 0) : Type 0 where
  pub load_abar : ℕ → M → ℕ × M
  pub store_abar : ℕ → ℕ → M → M

module _ {M : Type 0} (abar : Abar M) where
  -- `while ((uint32_t) (getABAR()[4]) & 0b1)`
  pub wait_for_reset : ℕ → M → Run M
  wait_for_reset zero s = out_of_fuel
  wait_for_reset (suc fuel) s =
      let (value, s1) = abar.load_abar 4 s in
      elim (value % 2 == 0) [ true ↦ ok s1 | false ↦ wait_for_reset fuel s1 ]

  -- The loop that waits until the BIOS has handed over.
  pub wait_for_handoff : ℕ → M → Run M
  wait_for_handoff zero s = out_of_fuel
  wait_for_handoff (suc fuel) s =
      let (value, s1) = abar.load_abar 0x28 s in
      elim (bit_and value 0b11 == 0b10) [ true ↦ ok s1 | false ↦ wait_for_handoff fuel s1 ]

  -- The loop over the ports from `i` on. `try_port` makes a SATA, and tells whether tryToInit
  -- succeeds; `add_port` is Storage::addStorage of that one.
  pub ports_loop : (ℕ → M → Run (Bool × M)) → (ℕ → M → Run M) → ℕ → ℕ → ℕ → M → Run M
  ports_loop try_port add_port available zero i s = ok s
  ports_loop try_port add_port available (suc left) i s = elim (available / 2 ^ i % 2 == 0) [
    | true ↦ ports_loop try_port add_port available left (i + 1) s
    | false ↦ do
      tried ← try_port i s
      s' ← (if tried.0 then add_port i tried.1 else ok tried.1)
      ports_loop try_port add_port available left (i + 1) s'
  ]

  -- SATA::Controller::init
  pub init_controller :
      (Controller → ℕ → M → Run (Bool × M)) → (ℕ → M → Run M) → ℕ → M → Run (Controller × M)
  init_controller try_port add_port fuel s = do
    s1 ← wait_for_reset fuel (abar.store_abar 4 (2 ^ 31 + 1) s)
    let (available, s2) = abar.load_abar 0xC (abar.store_abar 4 (2 ^ 31) s1)
    let (capabilities, s3) = abar.load_abar 0 s2
    let (capabilities2, s4) = abar.load_abar 0x24 s3
    let (version, s5) = abar.load_abar 0x10 s4
    let (bohc, s6) = abar.load_abar 0x28 s5
    let controller : Controller = record {
      ports_available = available;
      capabilities = capabilities;
      capabilities2 = capabilities2;
      version = version;
    }
    s7 ←
        (if not (capabilities2 % 2 == 0) && not (bohc % 2 == 0)
          then wait_for_handoff fuel (abar.store_abar 0x28 (bit_or bohc 0b10) s6)
          else ok s6)
    s8 ← ports_loop (try_port controller) add_port available 32 0 s7
    ok (controller, s8)
