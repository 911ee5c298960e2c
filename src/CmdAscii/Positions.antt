-- ===== src/CmdAscii/Positions.antt =====
-- src/cmd_ascii.c: the commands GNSSEN, GNSSSTAT, GNSSLOC and GNSSNMEA. `in_buff` is the buffer
-- behind the name of the command. The numbers of GNSSLOC are printed by the C library, from the
-- modem's frame: that text is the parameter `location_text`.
use sipf_std_client_nrf.Cmd.{Reply, text}
use sipf_std_client_nrf.CmdAscii.{res_ill_param, res_ok, res_ng}
use sipf_std_client_nrf.Gnss.{
  Modem, Gnss, Flag, fix_valid, leap_second_valid, sleep_between_pvt, deadline_missed,
  not_enough_window_time, velocity_valid, gnss_start, gnss_stop, gnss_get_data, gnss_strcpy_nmea,
}
use sipf_std_client_nrf.Prelude.Faults.{◌>>=◌}
use sipf_std_client_nrf.Prelude.{
  ℕ, ◌++◌, not, Option, some, ◌==◌, if◌then◌else◌, ℤ, is_zero, Bytes, get_or, codes,
}

module _ {P W : Type 0} (modem : Modem P W) where
  -- the answer to the modem's result
  enable_reply : ℤ × Gnss P W → Reply × Gnss P W
  enable_reply (ret, g) = (text (if is_zero ret then res_ok else res_ng), g)

  unfoldable pub cmd_gnss_enable : Bytes → ℕ → Gnss P W → Reply × Gnss P W
  unfolding enable_reply
  cmd_gnss_enable in_buff in_len g =
      if not (get_or in_buff 0 0 == 0x20)
      then (text res_ill_param, g)
      else if not (in_len == 2)
      then (text res_ill_param, g)
      else if get_or in_buff 1 0 == b'0'
      then enable_reply (gnss_stop modem g)
      else if get_or in_buff 1 0 == b'1'
      then enable_reply (gnss_start modem g)
      else (text res_ill_param, g)

  -- one line of GNSSSTAT
  status_line : Bytes → Flag → P → Bytes
  status_line name f pvt =
      name ++ (codes ": " ++ (if modem.flag f pvt then codes "true\n" else codes "false\n"))

  status_text : P → Bytes
  status_text pvt =
      status_line (codes "Fix valid") fix_valid pvt
      ++ (status_line (codes "Leap second valid") leap_second_valid pvt
          ++ (status_line (codes "Sleep between PVT") sleep_between_pvt pvt
              ++ (status_line (codes "Deadline missed") deadline_missed pvt
                  ++ (status_line (codes "Insuf. time window") not_enough_window_time pvt
                      ++ (status_line (codes "Velocity estimate valid") velocity_valid pvt
                          ++ codes "OK\n")))))

  unfoldable pub cmd_gnss_status : ℕ → Gnss P W → Reply
  unfolding status_text status_line
  cmd_gnss_status in_len g =
      if not (in_len == 0)
      then text res_ill_param
      else (let (_, pvt) = gnss_get_data modem g in text (status_text pvt))

  unfoldable pub cmd_gnss_location : (P → Bytes) → ℕ → Gnss P W → Reply
  cmd_gnss_location location_text in_len g =
      if not (in_len == 0)
      then text res_ill_param
      else (let (got_fix, pvt) = gnss_get_data modem g in
          text (
            (if got_fix then codes "A," else codes "V,")
            ++ (location_text pvt ++ codes "\r\nOK\r\n")))

unfoldable pub cmd_gnss_nmea : {P W : Type 0} → ℕ → Gnss P W → Option Reply
cmd_gnss_nmea in_len g =
    if not (in_len == 0)
    then some (text res_ill_param)
    else do nmea ← gnss_strcpy_nmea g; some (text (nmea ++ codes "\r\nOK\r\n"))
