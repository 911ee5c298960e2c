-- ===== src/Main/WakeIn.antt =====
-- src/main.c: the pin WAKE_IN, which asks for a reboot. Boards without the pin have no functions of
-- the driver to call.
use sipf_std_client_nrf.Prelude.{Option, none, some, if◌then◌else◌, ℤ, pos, is_zero, codes}
use sipf_std_client_nrf.UartBroker.{print}
use sipf_std_client_nrf.Zephyr.{Kernel}

-- gpio_pin_configure_dt, gpio_init_callback with gpio_add_callback, and
-- gpio_pin_interrupt_configure_dt, all on WAKE_IN; sys_reboot, behind which nothing runs.
pub record WakeIn (W : Type 0) : Type 0 where
  pub configure : W → ℤ × W
  pub add_callback : W → ℤ × W
  pub interrupt_configure : W → ℤ × W
  pub reboot : W → W

module _ {W : Type 0} where
  -- The result is 0 whatever the driver answers.
  unfoldable pub wake_in_init : Option (WakeIn W) → W → ℤ × W
  wake_in_init none w = (pos 0, w)
  wake_in_init (some pin) w =
      let (r₁, w₁) = pin.configure w in
      let (r₂, w₂) = pin.add_callback w₁ in
      let (_, w₃) = pin.interrupt_configure w₂ in
      (pos 0, if is_zero r₁ then (if is_zero r₂ then w₃ else w₂) else w₁)

  unfoldable pub wake_in_assert : Kernel W → WakeIn W → W → W
  wake_in_assert k pin w = pin.reboot (print k (codes "RESET_REQ_DETECT\r\n") w)
