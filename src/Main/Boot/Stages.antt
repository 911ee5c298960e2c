-- ===== src/Main/Boot/Stages.antt =====
-- src/main.c: what main leaves behind its start, and behind the rounds of its loop.
use sipf_std_client_nrf.Cmd.{Cmd}
use sipf_std_client_nrf.CmdAscii.Dispatch.{with_gnss}
use sipf_std_client_nrf.Main.Boot.{
  Booted, stopped, ready, power_up, start_gnss, announce, authenticate, boot, go_on, main,
}
use sipf_std_client_nrf.Main.Keeps.{boot_auth-Holds}
use sipf_std_client_nrf.Main.Leds.{led_off}
use sipf_std_client_nrf.Main.Loop.Valid.{IsValid, rounds-IsValid}
use sipf_std_client_nrf.Main.Loop.{Machine, Board, board_world, in_world, node_of, rounds}
use sipf_std_client_nrf.Main.Lte.{init_modem_and_lte}
use sipf_std_client_nrf.Main.WakeIn.{WakeIn}
use sipf_std_client_nrf.Main.{boot_auth, set_mode}
use sipf_std_client_nrf.Prelude.Runs.{Run, returns, ◌>>=◌, Leaves, bind-Leaves}
use sipf_std_client_nrf.Prelude.{
  ℕ, ◌≡◌, ◌⊎◌, refl, Bool, true, false, Option, negsuc, is_zero, Bytes, arith, replicate, set, ◌∷◌,
}
use sipf_std_client_nrf.Registers.Typed.{AreTyped, mode_0-AreTyped, bank00-AreTyped, reset-AreTyped}
use sipf_std_client_nrf.Registers.{Registers, registers_reset}

-- main has returned -1, or stands in its loop with statics of this property.
abbrev pub Stands : {P W : Type 0} → (Board P W → Type 0) → Booted P W → Type 0
Stands Q (stopped ret w) = ret ≡ negsuc 0
Stands Q (ready b) = Q b

-- What a start leaves that comes to its end: registers of this property, the line buffer as it was,
-- and 1 as the mode of the round before.
pub record Started {P W : Type 0} (Q : Registers → Type 0) (c : Cmd) (b : Board P W) : Type 0 where
  pub registers : Q b.firmware.registers
  pub line : b.cmd ≡ c
  pub prev : b.prev_auth_mode ≡ 1

-- Bank 0 behind a start: zero, but for the mode.
pub record IsFresh (common : Bytes) (r : Registers) : Type 0 where
  pub kept : r.reg_common ≡ common
  pub bank : (r.bank00 ≡ replicate 240 0) ⊎ (r.bank00 ≡ 1 ∷ replicate 239 0)

module _ {P W : Type 0} (m : Machine P W) (plmn : Option Bytes) (wake_in : Option (WakeIn W)) where
  start_gnss_keeps :
      (b : Board P W)
      → ((start_gnss m plmn wake_in b).firmware.registers ≡ b.firmware.registers)
        × ((start_gnss m plmn wake_in b).cmd ≡ b.cmd)
  unfolding start_gnss with_gnss
  start_gnss_keeps b = ground arith

  onwards :
      (n fuel : ℕ) (b : Board P W)
      → IsValid b
      → (r : Booted P W) → Stands (Started AreTyped b.cmd) r
      → Leaves (Stands IsValid) (go_on m plmn wake_in n fuel r)
  unfolding go_on
  onwards n fuel b v (stopped ret w) h = h
  onwards n fuel b v (ready b₁) h =
      bind-Leaves IsValid (Stands IsValid) (rounds m n fuel b₁) _
        (rounds-IsValid m n fuel b₁ (record { registers = h.registers; line = rw h.line v.line }))
        (λ b₂ v₂. v₂)

  -- A property of the registers that a mode of 0 keeps, and that holds with a mode of 1 behind the
  -- reset, holds behind the start.
  module _ (Q : Registers → Type 0)
      (reset : (r : Registers) → Q r → Q (record r { bank00 = set r.bank00 0 0 })) where
    authenticate-Holds :
        (fuel : ℕ) (b : Board P W) (r : Registers) (c : Cmd)
        → b.firmware.registers ≡ r
        → b.cmd ≡ c
        → Q (record r { bank00 = set r.bank00 0 1 })
        → Leaves (Started Q c) (authenticate m plmn wake_in fuel b)
    unfolding authenticate announce
    authenticate-Holds fuel b r c er ec q =
        let q' : Q (set_mode 1 (node_of b)).registers = rw er q in
        bind-Leaves (λ s. Q s.registers) (Started Q c)
          (boot_auth m.outside.k m.outside.net m.auth_cfg fuel (node_of b)) _
          (boot_auth-Holds m.outside.k m.outside.net m.auth_cfg Q reset fuel (node_of b) q')
          (λ s t. record { registers = t; line = ec; prev = refl })

    booted :
        (ok : Bool) (off : W) (r : Run (Board P W)) (c : Cmd)
        → Leaves (Started Q c) r
        → Leaves (Stands (Started Q c)) (elim ok [
          | true ↦ (do b₃ ← r; returns (ready b₃))
          | false ↦ returns (stopped (negsuc 0) off)
        ])
    booted true off r c h = bind-Leaves (Started Q c) (Stands (Started Q c)) r _ h (λ b v. v)
    booted false off r c h = refl

    boot-Holds :
        (fuel : ℕ) (b : Board P W)
        → (let r = registers_reset b.firmware.registers in
            Q (record r { bank00 = set r.bank00 0 1 }))
        → Leaves (Stands (Started Q b.cmd)) (boot m plmn wake_in fuel b)
    unfolding boot power_up
    boot-Holds fuel b q =
        let b₁ = power_up m plmn wake_in b in
        let (err, w) = init_modem_and_lte m.outside.k m.link (board_world b₁) in
        let b₂ = in_world b₁ w in
        let kept = start_gnss_keeps b₂ in
        booted (is_zero err) (led_off m.gpio 2 w).1 _ b.cmd (
          authenticate-Holds fuel (start_gnss m plmn wake_in b₂)
            (registers_reset b.firmware.registers) b.cmd kept.0 kept.1 q)

  -- From valid statics, main either returns -1 or leaves valid statics behind any number of rounds
  -- of its loop, whatever comes over the UART and whatever the calls answer, where these come to an
  -- end: the registers are 16 and 240 bytes below 256 and select bank 0, the line buffer has its
  -- 4096 places, and its index is neither negative nor above 4096 while a line is collected.
  pub main-IsValid :
      (n requests fuel : ℕ) (b : Board P W)
      → IsValid b
      → Leaves (Stands IsValid) (main m plmn wake_in n requests fuel b)
  unfolding main
  main-IsValid n requests fuel b v =
      bind-Leaves (Stands (Started AreTyped b.cmd)) (Stands IsValid)
        (boot m plmn wake_in requests b) _
        (boot-Holds AreTyped mode_0-AreTyped requests b (
          bank00-AreTyped (registers_reset b.firmware.registers) 0 1 (omega arith)
            (reset-AreTyped b.firmware.registers v.registers)))
        (λ r h. onwards n fuel b v r h)
