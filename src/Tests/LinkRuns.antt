-- ===== src/Tests/LinkRuns.antt =====
-- The start of the modem, over a count of the sessions and a network that never answers.
use sipf_std_client_nrf.Main.Lte.Attach.{Sessions, Balanced, init_modem_and_lte-Balanced}
use sipf_std_client_nrf.Main.Lte.{Link, init_modem_and_lte}
use sipf_std_client_nrf.Prelude.{ℕ, ◌+◌, ◌-◌, refl, true, [], pos}
use sipf_std_client_nrf.Tests.FirmwareRuns.{outside}
use sipf_std_client_nrf.Zephyr.{eagain}

abbrev searching : Link ℕ
searching = record {
  nrf_modem_lib_init = λ w. (pos 0, w);
  key_exists = λ w. (pos 0, true, w);
  key_delete = λ w. (pos 0, w);
  key_write = λ w. (pos 0, w);
  system_mode_set = λ w. (pos 0, w);
  at_printf = λ c w. (pos 0, w);
  pdn_ctx_create = λ w. (pos 0, w);
  pdn_ctx_configure = λ w. (pos 0, w);
  lte_lc_init = λ w. (pos 0, w + 1);
  modem_events_enable = λ w. w;
  connect_async = λ w. (pos 0, w);
  sem_take = λ w. (eagain, w);
  offline = λ w. w;
  deinit = λ w. w - 1;
  psm_req = λ w. (pos 0, w);
  modem_info_init = λ w. (pos 0, w);
  params_init = λ w. (pos 0, w);
  params_get = λ w. (pos 0, w);
  iccid = λ w. [];
}

abbrev sessions : Sessions outside.k searching
sessions = record {
  live = λ w. w;
  init_opens = λ w. refl;
  deinit_ends = λ w. refl;
  offline_quiet = λ w. refl;
  put_quiet = λ b w. refl;
  events_quiet = λ w. refl;
  connect_quiet = λ w. refl;
  sem_quiet = λ w. refl;
  psm_quiet = λ w. refl;
  info_quiet = λ w. refl;
  params_quiet = λ w. refl;
  get_quiet = λ w. refl;
  lib_quiet = λ w. refl;
  key_exists_quiet = λ w. refl;
  key_delete_quiet = λ w. refl;
  key_write_quiet = λ w. refl;
  mode_quiet = λ w. refl;
  at_quiet = λ c w. refl;
  pdn_create_quiet = λ w. refl;
  pdn_configure_quiet = λ w. refl;
}

init_modem_and_lte-Balanced_example : Balanced sessions 3 (init_modem_and_lte outside.k searching 3)
init_modem_and_lte-Balanced_example = init_modem_and_lte-Balanced sessions 3
