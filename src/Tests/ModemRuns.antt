-- ===== src/Tests/ModemRuns.antt =====
-- GNSS events, the authentication mode, and a fragment of a download, on concrete inputs.
use sipf_std_client_nrf.CmdAscii.Transfer.Blocks.{all_sent, one_sent, chunks, fget_cb-blocks}
use sipf_std_client_nrf.CmdAscii.Transfer.{fget_try, fget_cb, sent}
use sipf_std_client_nrf.Gnss.Refinement.{EndsIn, Stores, log_of, gnss_events-log}
use sipf_std_client_nrf.Gnss.Sentences.{Rows, no_rows, free}
use sipf_std_client_nrf.Gnss.{
  Modem, Gnss, GnssEvent, evt_pvt, evt_nmea, evt_fix, gnss_events, gnss_strcpy_nmea,
}
use sipf_std_client_nrf.Libc.{strlen}
use sipf_std_client_nrf.Prelude.Text.{joined}
use sipf_std_client_nrf.Prelude.{
  ℕ, ◌+◌, ◌/◌, ◌%◌, ◌≡◌, refl, true, some, [], ◌∷◌, ◌++◌, List, pos, Bytes, length, take, replicate,
  codes, arith,
}
use sipf_std_client_nrf.Tests.Script.{Script, scripted, arriving, line_of}
use sipf_std_client_nrf.UartBroker.{Uart, get_byte_tm, put}
use sipf_std_client_nrf.Xmodem.{send_block, make_block, add_sum, copy}

-- A modem that reads the same sentence each time, and counts its reads.
abbrev pub modem : Modem ℕ ℕ
modem = record {
  flag = λ f p. true;
  read_nmea = λ w. (pos 0, codes "$GP" ++ 0 ∷ 0 ∷ [], w + 1);
  read_pvt = λ w. (pos 0, (λ p. p + 1), w + 1);
  event_handler_set = λ w. (pos 0, w);
  fix_retry_set = λ n w. (pos 0, w);
  fix_interval_set = λ n w. (pos 0, w);
  nmea_mask_set = λ w. (pos 0, w);
  start = λ w. (pos 0, w);
  stop = λ w. (pos 0, w);
}

abbrev pub row : Bytes
row = replicate 5 0

abbrev empty_store : Gnss ℕ ℕ
empty_store = record {
  nmea_strings = replicate 10 row;
  nmea_string_cnt = 0;
  last_gps_pvt = 0;
  world = 0;
}

empty-Rows : Rows 5 [] (replicate 10 row)
empty-Rows = free refl (
    free refl (
      free refl (
        free refl (free refl (free refl (free refl (free refl (free refl (free refl no_rows)))))))))

abbrev events : List GnssEvent
events = evt_nmea ∷ evt_pvt ∷ evt_nmea ∷ evt_fix ∷ evt_nmea ∷ []

gnss_events-log_example :
    (g' : Gnss ℕ ℕ) × (gnss_events modem events empty_store ≡ some g')
    × Stores 5 (log_of modem events 0 []) g'
    × (gnss_strcpy_nmea g' ≡ some (joined (take 10 (log_of modem events 0 []))))
unfolding EndsIn strlen
gnss_events-log_example =
    gnss_events-log 5 modem (λ w r. (3, refl, omega arith)) events [] empty_store
      (record { rows = empty-Rows; ten = refl; cnt = refl })

abbrev acked : Uart Script
acked = line_of (arriving (0x06 ∷ [])) 132

abbrev behind : Uart Script
behind = (fget_try scripted 3 1 (codes "abc") acked).1

first_sent : fget_try scripted 3 1 (codes "abc") acked ≡ (sent, behind)
unfolding fget_try send_block get_byte_tm put make_block add_sum copy
first_sent = refl

fget_cb-blocks_example :
    (fget_cb scripted (codes "abc") 1 acked.world
      ≡ (pos 0, (1 + (length (codes "abc") + 127) / 128) % 256, behind.world))
    × (joined (chunks ((length (codes "abc") + 127) / 128) (codes "abc")) ≡ codes "abc")
unfolding chunks
fget_cb-blocks_example =
    fget_cb-blocks scripted (codes "abc") 1 acked.world behind (omega arith)
      (one_sent behind first_sent (all_sent refl))
