-- ===== src/Main/Lte/Attach.antt =====
-- The tries of src/main.c to attach to the network, over a count of the sessions of the LTE link
-- controller.
use sipf_std_client_nrf.Main.Lte.{
  Link, connected, attach, attach_text, at_comms_init, cert_provision, step, init_modem_and_lte,
}
use sipf_std_client_nrf.Prelude.{
  ℕ, zero, suc, ◌+◌, ◌-◌, ◌≡◌, refl, Bool, ◌∙◌, true, false, inl, inr, ℤ, is_zero, eq_ℤ, arith,
  Bytes, ap, ◌++◌, codes, ◌⊎◌, if◌then◌else◌,
}
use sipf_std_client_nrf.UartBroker.Traffic.{print-quiet}
use sipf_std_client_nrf.UartBroker.{print}
use sipf_std_client_nrf.Zephyr.{Kernel, eagain}

-- lte_lc_init opens a session where it succeeds, and lte_lc_deinit ends one. No other call changes
-- how many there are, the output on the UART included.
pub record Sessions {W : Type 0} (k : Kernel W) (link : Link W) : Type 0 where
  pub live : W → ℕ
  pub init_opens :
      (w : W)
      → live (link.lte_lc_init w).1 ≡ live w + (if is_zero (link.lte_lc_init w).0 then 1 else 0)
  pub deinit_ends : (w : W) → live (link.deinit w) ≡ live w - 1
  pub offline_quiet : (w : W) → live (link.offline w) ≡ live w
  pub put_quiet : (b : ℕ) (w : W) → live (k.tx_put b w).1 ≡ live w
  pub events_quiet : (w : W) → live (link.modem_events_enable w) ≡ live w
  pub connect_quiet : (w : W) → live (link.connect_async w).1 ≡ live w
  pub sem_quiet : (w : W) → live (link.sem_take w).1 ≡ live w
  pub psm_quiet : (w : W) → live (link.psm_req w).1 ≡ live w
  pub info_quiet : (w : W) → live (link.modem_info_init w).1 ≡ live w
  pub params_quiet : (w : W) → live (link.params_init w).1 ≡ live w
  pub get_quiet : (w : W) → live (link.params_get w).1 ≡ live w
  pub lib_quiet : (w : W) → live (link.nrf_modem_lib_init w).1 ≡ live w
  pub key_exists_quiet : (w : W) → live (link.key_exists w).2 ≡ live w
  pub key_delete_quiet : (w : W) → live (link.key_delete w).1 ≡ live w
  pub key_write_quiet : (w : W) → live (link.key_write w).1 ≡ live w
  pub mode_quiet : (w : W) → live (link.system_mode_set w).1 ≡ live w
  pub at_quiet : (cmd : Bytes) (w : W) → live (link.at_printf cmd w).1 ≡ live w
  pub pdn_create_quiet : (w : W) → live (link.pdn_ctx_create w).1 ≡ live w
  pub pdn_configure_quiet : (w : W) → live (link.pdn_ctx_configure w).1 ≡ live w

abbrev gps_antenna : Bytes
gps_antenna = codes "AT%XMAGPIO=1,0,0,1,1,1574,1577"

abbrev coexistence : Bytes
coexistence = codes "AT%XCOEX0=1,1,1565,1586"

module _ {W : Type 0} {k : Kernel W} {link : Link W} (s : Sessions k link) where
  -- One session more, and this one is up where the result is 0; or as many as before.
  abbrev pub Balanced : ℕ → ℤ × W → Type 0
  Balanced n (r, w) = (s.live w ≡ n + 1) ⊎ ((s.live w ≡ n) × (is_zero r ≡ false))

  print_quiet : (msg : Bytes) (w : W) → s.live (print k msg w) ≡ s.live w
  print_quiet = print-quiet k (λ w. s.live w) s.put_quiet

  connected-live : (w : W) → s.live (connected k link w) ≡ s.live w
  unfolding connected
  connected-live w =
      let (_, w₁) = link.psm_req w in
      let (e₁, w₂) = link.modem_info_init w₁ in
      let (e₂, w₃) = link.params_init w₂ in
      let (e₃, w₄) = link.params_get w₃ in
      let q₁ = s.psm_quiet w in
      let q₂ = s.info_quiet w₁ in
      let q₃ = s.params_quiet w₂ in
      let q₄ = s.get_quiet w₃ in
      let q₅ = print_quiet (codes "ICCID: " ++ (link.iccid w₄ ++ codes "\r\n")) w₄ in ground arith

  -- the world behind a try whose wait is over, and behind one that has timed out
  abbrev waited : W → ℤ × W
  waited w =
      let (_, w₁) = link.lte_lc_init w in
      let (_, w₂) =
        link.connect_async (print k (attach_text k link) (link.modem_events_enable w₁)) in
      link.sem_take w₂

  abbrev timed_out : W → W
  timed_out w = link.deinit (link.offline (print k (codes "TIMEOUT\r\n") w))

  timed_out-live : (w : W) → s.live (timed_out w) ≡ s.live w - 1
  timed_out-live w =
      s.deinit_ends (link.offline (print k (codes "TIMEOUT\r\n") w))
      ∙ ap (λ n. n - 1)
          (s.offline_quiet (print k (codes "TIMEOUT\r\n") w) ∙ print_quiet (codes "TIMEOUT\r\n") w)

  if-Balanced :
      (n : ℕ) (b : Bool) (x y : ℤ × W)
      → (b ≡ true → Balanced n x)
      → (b ≡ false → Balanced n y)
      → Balanced n (if b then x else y)
  if-Balanced n true x y t f = t refl
  if-Balanced n false x y t f = f refl

  attach-Balanced : (n : ℕ) (w : W) → Balanced (s.live w) (attach k link n w)
  unfolding attach
  attach-Balanced zero w = inr (refl, refl)
  attach-Balanced (suc n) w =
      let (r₁, w₁) = link.lte_lc_init w in
      let w₂ : W = print k (attach_text k link) (link.modem_events_enable w₁) in
      let (r₂, w₃) = link.connect_async w₂ in
      let (err, w₄) = link.sem_take w₃ in
      let kept : s.live w₃ ≡ s.live w₁ =
        s.connect_quiet w₂
        ∙ print_quiet (attach_text k link) (link.modem_events_enable w₁)
        ∙ s.events_quiet w₁ in
      let same : s.live w₄ ≡ s.live w₁ = s.sem_quiet w₃ ∙ kept in
      if-Balanced (s.live w) (is_zero r₁) _ _
        (λ up.
          let opened : s.live w₁ ≡ s.live w + 1 = rw up at (s.init_opens w) in
          let again : s.live (timed_out w₄) ≡ s.live w =
            timed_out-live w₄ ∙ omega (arith, same, opened) in
          if-Balanced (s.live w) (is_zero r₂) _ _
            (λ e₂.
              if-Balanced (s.live w) (eq_ℤ err eagain) _ _
                (λ e. rw again at (attach-Balanced n (timed_out w₄)))
                (λ e.
                  if-Balanced (s.live w) (is_zero err) _ _
                    (λ z. inl (connected-live w₄ ∙ same ∙ opened)) (λ z. inl (same ∙ opened))))
            (λ e₂. inl (kept ∙ opened)))
        (λ down. inr (rw down at (s.init_opens w) ∙ omega arith, down))

  cert_provision-live : (w : W) → s.live (cert_provision k link w).1 ≡ s.live w
  unfolding cert_provision
  cert_provision-live w =
      let (err, exists, w₁) = link.key_exists w in
      let (_, w₂) = link.key_delete w₁ in
      let q₁ = s.key_exists_quiet w in
      let q₂ = s.key_delete_quiet w₁ in
      let q₃ = s.key_write_quiet w₁ in let q₄ = s.key_write_quiet w₂ in ground arith

  record IsBalanced (g : W → ℤ × W) : Type 0 where
    balanced : (w : W) → Balanced (s.live w) (g w)

  step-IsBalanced :
      (f : W → ℤ × W) {g : W → ℤ × W}
      → ((w : W) → s.live (f w).1 ≡ s.live w)
      → IsBalanced g
      → IsBalanced (step k link f g)
  unfolding init_modem_and_lte
  step-IsBalanced f {g} quiet rest = record {
    balanced = λ w.
        if-Balanced (s.live w) (is_zero (f w).0) _ _ (λ e. rw (quiet w) at (rest.balanced (f w).1))
          (λ e. inr (quiet w, e));
  }

  chain-IsBalanced : IsBalanced (init_modem_and_lte k link)
  unfolding init_modem_and_lte
  chain-IsBalanced = step-IsBalanced link.nrf_modem_lib_init s.lib_quiet (
      step-IsBalanced (at_comms_init k link) (λ w. refl)
        (step-IsBalanced (cert_provision k link) cert_provision-live (
          step-IsBalanced link.system_mode_set s.mode_quiet (
            step-IsBalanced (link.at_printf gps_antenna) (s.at_quiet gps_antenna) (
              step-IsBalanced (link.at_printf coexistence) (s.at_quiet coexistence) (
                step-IsBalanced link.pdn_ctx_create s.pdn_create_quiet (
                  step-IsBalanced link.pdn_ctx_configure s.pdn_configure_quiet
                    (record { balanced = attach-Balanced 3 }))))))))

  -- The start of the modem and of the LTE link, whatever the calls answer, leaves as many sessions
  -- of the link controller open as it found, and then it has failed, or one more: a try that has
  -- timed out has ended its session before the next one opens its own.
  pub init_modem_and_lte-Balanced : (w : W) → Balanced (s.live w) (init_modem_and_lte k link w)
  init_modem_and_lte-Balanced = chain-IsBalanced.balanced
