-- ===== src/Main/Leds.antt =====
-- src/main.c: the LEDs. The GPIO driver is the record `Gpio`.
use sipf_std_client_nrf.Prelude.{ℕ, ◌+◌, ◌==◌, ◌||◌, Bool, if◌then◌else◌, ltb, ℤ, pos}

-- gpio_pin_configure_dt and gpio_pin_set_dt of LED 1, 2 and 3, whose results are not used.
pub record Gpio (W : Type 0) : Type 0 where
  pub configure : ℕ → W → W
  pub set_pin : ℕ → ℕ → W → W

module _ {W : Type 0} (gpio : Gpio W) where
  unfoldable pub led_init : W → ℤ × W
  led_init w =
      let w₁ = gpio.set_pin 1 0 (gpio.configure 1 w) in
      let w₂ = gpio.set_pin 2 0 (gpio.configure 2 w₁) in
      (pos 0, gpio.set_pin 3 0 (gpio.configure 3 w₂))

  -- the cases 1, 2 and 3
  abbrev is_led : ℕ → Bool
  is_led pin = pin == 1 || (pin == 2 || pin == 3)

  unfoldable pub led_on : ℕ → W → ℤ × W
  led_on pin w = if is_led pin then (pos 0, gpio.set_pin pin 1 w) else (pos 1, w)

  -- Nothing reaches the lines behind the last `break`: another pin is no error here.
  unfoldable pub led_off : ℕ → W → ℤ × W
  led_off pin w = if is_led pin then (pos 0, gpio.set_pin pin 0 w) else (pos 0, w)

  -- With the static `val`.
  unfoldable pub led1_toggle : ℕ → W → ℕ × W
  led1_toggle val w = (if val == 0 then 1 else 0, gpio.set_pin 1 val w)

  -- The heart beat: `ms_timeout` and `val` behind it.
  unfoldable pub heart_beat : ℕ → ℕ → ℕ → W → ℕ × ℕ × W
  heart_beat ms_now ms_timeout val w =
      let (val', w') = led1_toggle val w in
      if ltb ms_timeout ms_now then (ms_now + 500, val', w') else (ms_timeout, val, w)
