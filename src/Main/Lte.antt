-- ===== src/Main/Lte.antt =====
-- src/main.c: the certificate, the start of the modem, and the connection to the network. The modem
-- library and the LTE link controller are the record `Link`; each call may answer as it likes.
pub mod Attach
use sipf_std_client_nrf.Prelude.{
  ℕ, zero, suc, ◌++◌, Bool, true, false, if◌then◌else◌, ℤ, pos, negsuc, is_zero, eq_ℤ, Bytes, codes,
}
use sipf_std_client_nrf.UartBroker.{print}
use sipf_std_client_nrf.Zephyr.{Kernel, eagain}

pub record Link (W : Type 0) : Type 0 where
  pub nrf_modem_lib_init : W → ℤ × W
  -- modem_key_mgmt_exists: the result, and `exists`
  pub key_exists : W → ℤ × Bool × W
  pub key_delete : W → ℤ × W
  pub key_write : W → ℤ × W
  pub system_mode_set : W → ℤ × W
  pub at_printf : Bytes → W → ℤ × W
  pub pdn_ctx_create : W → ℤ × W
  pub pdn_ctx_configure : W → ℤ × W
  pub lte_lc_init : W → ℤ × W
  pub modem_events_enable : W → W
  pub connect_async : W → ℤ × W
  -- k_sem_take(&lte_connected, K_MSEC(120000)), with the events that come in the meantime
  pub sem_take : W → ℤ × W
  pub offline : W → W
  pub deinit : W → W
  pub psm_req : W → ℤ × W
  pub modem_info_init : W → ℤ × W
  pub params_init : W → ℤ × W
  pub params_get : W → ℤ × W
  pub iccid : W → Bytes

-- LTE_LC_EVT_*, and the registration states that the handler tells apart.
pub data RegStatus : Type 0 where
  searching registered_home registered_roaming other_status : RegStatus

pub data LteEvent : Type 0 where
  nw_reg_status : RegStatus → LteEvent
  other_event : LteEvent

module _ {W : Type 0} (k : Kernel W) where
  status_handler : RegStatus → W → Bool × W
  status_handler searching w = (false, print k (codes "SEARCHING\r\n") w)
  status_handler registered_home w = (true, print k (codes "REGISTERD\r\n") w)
  status_handler registered_roaming w = (true, print k (codes "REGISTERD\r\n") w)
  status_handler other_status w = (false, w)

  -- Whether the semaphore is given.
  unfoldable pub lte_handler : LteEvent → W → Bool × W
  unfolding status_handler
  lte_handler (nw_reg_status s) w = status_handler s w
  lte_handler other_event w = (false, w)

module _ {W : Type 0} (k : Kernel W) (link : Link W) where
  -- A failure to delete is reported only.
  unfoldable pub cert_provision : W → ℤ × W
  cert_provision w =
      let (err, exists, w₁) = link.key_exists w in
      let (_, w₂) = link.key_delete w₁ in
      if is_zero err then link.key_write (if exists then w₂ else w₁) else (err, w₁)

  -- The power saving mode, and the ICCID where the modem gives it.
  unfoldable pub connected : W → W
  connected w =
      let (_, w₁) = link.psm_req w in
      let (e₁, w₂) = link.modem_info_init w₁ in
      let (e₂, w₃) = link.params_init w₂ in
      let (e₃, w₄) = link.params_get w₃ in
      if is_zero e₁
      then (if is_zero e₂
          then (if is_zero e₃
              then print k (codes "ICCID: " ++ (link.iccid w₄ ++ codes "\r\n")) w₄
              else w₄)
          else w₃)
      else w₂

  abbrev attach_text : Bytes
  attach_text = codes "Trying to attach to LTE network (TIMEOUT: 120000 ms)\r\n"

  -- behind the wait: what is left to try is `again`
  after_wait : ℤ → (W → ℤ × W) → W → ℤ × W
  after_wait err again w =
      if eq_ℤ err eagain
      then again (link.deinit (link.offline (print k (codes "TIMEOUT\r\n") w)))
      else if is_zero err
      then (pos 0, connected w)
      else (err, w)

  -- `n` of the three tries are left.
  unfoldable pub attach : ℕ → W → ℤ × W
  unfolding after_wait
  attach zero w = (negsuc 0, w)
  attach (suc n) w =
      let (r₁, w₁) = link.lte_lc_init w in
      let (r₂, w₂) = link.connect_async (print k attach_text (link.modem_events_enable w₁)) in
      let (err, w₃) = link.sem_take w₂ in
      let rest = after_wait err (attach n) w₃ in
      if is_zero r₁ then (if is_zero r₂ then rest else (r₂, w₂)) else (r₁, w₁)

  abbrev pub at_comms_init : W → ℤ × W
  at_comms_init w = (pos 0, w)

  -- A step whose result is not 0 ends the chain with this result.
  step : (W → ℤ × W) → (W → ℤ × W) → W → ℤ × W
  step f g w = let (err, w') = f w in if is_zero err then g w' else (err, w')

  unfoldable pub init_modem_and_lte : W → ℤ × W
  unfolding step
  init_modem_and_lte = step link.nrf_modem_lib_init (
      step at_comms_init (
        step cert_provision (
          step link.system_mode_set (
            step (link.at_printf (codes "AT%XMAGPIO=1,0,0,1,1,1574,1577")) (
              step (link.at_printf (codes "AT%XCOEX0=1,1,1565,1586"))
                (step link.pdn_ctx_create (step link.pdn_ctx_configure (attach 3))))))))
