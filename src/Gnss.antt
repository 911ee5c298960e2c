-- ===== src/Gnss.antt =====
-- src/gnss/gnss.c: the store of NMEA sentences that the modem's events fill, the last position, and
-- the calls that set GNSS up, start it and stop it. The GNSS interface belongs to the modem library:
-- it is the record `Modem`.
pub mod Sentences
pub mod Refinement
use sipf_std_client_nrf.Libc.{memcpy, strlen}
use sipf_std_client_nrf.Prelude.Faults.{◌>>=◌, ◌>>◌}
use sipf_std_client_nrf.Prelude.{
  ℕ, zero, suc, ◌+◌, ◌++◌, Bool, true, false, Option, none, some, [], ◌∷◌, List, ltb, ℤ, pos,
  negsuc, is_zero, if◌then◌else◌, Bytes, take,
}

-- NRF_MODEM_GNSS_PVT_FLAG_*
pub data Flag : Type 0 where
  fix_valid leap_second_valid sleep_between_pvt deadline_missed not_enough_window_time : Flag
  velocity_valid : Flag

-- nrf_modem_gnss_*, where `P` is the position frame. `read_nmea` leaves `nmea_str`, and `read_pvt`
-- says what it makes of the frame.
pub record Modem (P W : Type 0) : Type 0 where
  pub flag : Flag → P → Bool
  pub read_nmea : W → ℤ × Bytes × W
  pub read_pvt : W → ℤ × (P → P) × W
  pub event_handler_set : W → ℤ × W
  pub fix_retry_set : ℕ → W → ℤ × W
  pub fix_interval_set : ℕ → W → ℤ × W
  pub nmea_mask_set : W → ℤ × W
  pub start : W → ℤ × W
  pub stop : W → ℤ × W

-- The statics. `nmea_strings` is the list of its rows.
pub record Gnss (P W : Type 0) : Type 0 where
  pub nmea_strings : List Bytes
  pub nmea_string_cnt : ℕ
  pub last_gps_pvt : P
  pub world : W

-- memcpy(nmea_strings[i], s, strlen(s) + 1)
unfoldable pub store_row : ℕ → Bytes → List Bytes → Option (List Bytes)
store_row i str [] = none
store_row zero str (row ∷ rows) = do
  n ← strlen str
  row' ← memcpy row 0 (take (suc n) str)
  some (row' ∷ rows)
store_row (suc i) str (row ∷ rows) = do rows' ← store_row i str rows; some (row ∷ rows')

-- sprintf("%s") of the first `n` rows, one behind the other.
unfoldable pub copy_rows : ℕ → List Bytes → Option Bytes
copy_rows zero rows = some []
copy_rows (suc n) [] = none
copy_rows (suc n) (row ∷ rows) = do
  len ← strlen row
  rest ← copy_rows n rows
  some (take len row ++ rest)

-- NRF_MODEM_GNSS_EVT_*
pub data GnssEvent : Type 0 where
  evt_pvt evt_nmea evt_fix evt_other : GnssEvent

pub data Ctrl : Type 0 where
  gnss_init_ctrl gnss_start_ctrl gnss_stop_ctrl : Ctrl

-- A sentence takes the next row, where one is left.
unfoldable pub keep_sentence : {P W : Type 0} → Bytes → Gnss P W → Option (Gnss P W)
keep_sentence nmea_str g = elim (ltb g.nmea_string_cnt 10) [
  | true ↦ do
    rows ← store_row g.nmea_string_cnt nmea_str g.nmea_strings
    some (record g { nmea_strings = rows; nmea_string_cnt = g.nmea_string_cnt + 1 })
  | false ↦ some g
]

module _ {P W : Type 0} (modem : Modem P W) where
  unfoldable pub on_gnss_evt_nmea : Gnss P W → Option (Gnss P W)
  on_gnss_evt_nmea g =
      let (ret, nmea_str, w) = modem.read_nmea g.world in
      let g' = record g { world = w } in
      elim (is_zero ret) [ true ↦ keep_sentence nmea_str g' | false ↦ some g' ]

  unfoldable pub on_gnss_evt_pvt : Gnss P W → Gnss P W
  on_gnss_evt_pvt g =
      let (err, read, w) = modem.read_pvt g.world in
      record g { last_gps_pvt = read g.last_gps_pvt; world = w }

  unfoldable pub gnss_event_handler : GnssEvent → Gnss P W → Option (Gnss P W)
  gnss_event_handler evt_pvt g = some (on_gnss_evt_pvt (record g { nmea_string_cnt = 0 }))
  gnss_event_handler evt_nmea g = on_gnss_evt_nmea g
  gnss_event_handler evt_fix g = some g
  gnss_event_handler evt_other g = some g

  -- the events of a time, in their order
  unfoldable pub gnss_events : List GnssEvent → Gnss P W → Option (Gnss P W)
  gnss_events [] g = some g
  gnss_events (e ∷ es) g = gnss_event_handler e g >>= gnss_events es

  -- 0, or -1 for any other result of the call
  abbrev pub checked : ℤ → ℤ
  checked ret = if is_zero ret then pos 0 else negsuc 0

  unfoldable pub gnss_ctrl : Ctrl → W → ℤ × W
  gnss_ctrl gnss_init_ctrl w =
      let (r₁, w₁) = modem.event_handler_set w in
      let (r₂, w₂) = modem.fix_retry_set 0 w₁ in
      let (r₃, w₃) = modem.fix_interval_set 1 w₂ in
      let (r₄, w₄) = modem.nmea_mask_set w₃ in
      if is_zero r₁
      then (if is_zero r₂
          then (if is_zero r₃ then (checked r₄, w₄) else (negsuc 0, w₃))
          else (negsuc 0, w₂))
      else (negsuc 0, w₁)
  gnss_ctrl gnss_start_ctrl w = let (ret, w') = modem.start w in (checked ret, w')
  gnss_ctrl gnss_stop_ctrl w = let (ret, w') = modem.stop w in (checked ret, w')

  -- gnss_ctrl, on the statics
  abbrev gnss_call : Ctrl → Gnss P W → ℤ × Gnss P W
  gnss_call ctrl g = let (ret, w) = gnss_ctrl ctrl g.world in (ret, record g { world = w })

  abbrev pub gnss_init : Gnss P W → ℤ × Gnss P W
  gnss_init g = gnss_call gnss_init_ctrl g

  abbrev pub gnss_start : Gnss P W → ℤ × Gnss P W
  gnss_start g = gnss_call gnss_start_ctrl g

  abbrev pub gnss_stop : Gnss P W → ℤ × Gnss P W
  gnss_stop g = gnss_call gnss_stop_ctrl g

  -- Whether the fix is valid, and the frame.
  abbrev pub gnss_get_data : Gnss P W → Bool × P
  gnss_get_data g = (modem.flag fix_valid g.last_gps_pvt, g.last_gps_pvt)

-- The text behind `dest`; its length is the result.
abbrev pub gnss_strcpy_nmea : {P W : Type 0} → Gnss P W → Option Bytes
gnss_strcpy_nmea g = copy_rows g.nmea_string_cnt g.nmea_strings
