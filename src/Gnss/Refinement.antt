-- ===== src/Gnss/Refinement.antt =====
-- src/gnss/gnss.c: the store of NMEA sentences against a list that forgets nothing. The list starts
-- again with each position event and gets every sentence that is read; the store holds its first ten.
use sipf_std_client_nrf.Gnss.Sentences.{Holds, emptied, copy_rows-Rows, store_row-Rows}
use sipf_std_client_nrf.Gnss.{
  Modem, Gnss, GnssEvent, evt_pvt, evt_nmea, evt_fix, evt_other, keep_sentence, on_gnss_evt_nmea,
  on_gnss_evt_pvt, gnss_event_handler, gnss_events, gnss_strcpy_nmea,
}
use sipf_std_client_nrf.Libc.{c_string, strlen}
use sipf_std_client_nrf.Prelude.Text.{joined}
use sipf_std_client_nrf.Prelude.{
  ℕ, zero, suc, ◌+◌, ◌≡◌, ◌≤◌, ◌<◌, ◌∙◌, refl, ap, sym, ◌++◌, Bool, true, false, Option, none, some,
  [], ◌∷◌, List, ltb, is_zero, Bytes, length, take, arith, if◌then◌else◌, length-take,
  length-append,
}

pub data Heard : Type 0 where
  restart nothing : Heard
  sentence : Bytes → Heard

-- The list, and what one event does to it.
unfoldable pub log_step : List Bytes → Heard → List Bytes
log_step log restart = []
log_step log nothing = log
log_step log (sentence s) = log ++ s ∷ []

module _ {P W : Type 0} (modem : Modem P W) where
  -- what an event is, by what the modem hands out
  unfoldable pub heard : GnssEvent → W → Heard × W
  heard evt_pvt w = let (err, read, w') = modem.read_pvt w in (restart, w')
  heard evt_nmea w =
      let (ret, str, w') = modem.read_nmea w in
      (if is_zero ret then sentence (c_string str) else nothing, w')
  heard evt_fix w = (nothing, w)
  heard evt_other w = (nothing, w)

  unfoldable pub log_of : List GnssEvent → W → List Bytes → List Bytes
  log_of [] w log = log
  log_of (e ∷ es) w log = let (h, w') = heard e w in log_of es w' (log_step log h)

  -- The modem's sentences are ended by a NUL within their array of `max` bytes.
  unfoldable pub EndsIn : ℕ → Type 0
  EndsIn max =
      (w : W)
      → is_zero (modem.read_nmea w).0 ≡ true
      → (n : ℕ) × (strlen (modem.read_nmea w).1 ≡ some n) × (n < max)

c_string_step :
    (c : ℕ) (cs : Bytes) (r : Option ℕ)
    → strlen cs ≡ r
    → ((m : ℕ) → r ≡ some m → c_string cs ≡ take m cs)
    → {n : ℕ} → strlen (c ∷ cs) ≡ some n
    → c_string (c ∷ cs) ≡ take n (c ∷ cs)
unfolding strlen c_string
c_string_step c cs none e ih h = ground arith
c_string_step c cs (some m) e ih h = ground (arith, ih m refl)

c_string-take : (str : Bytes) (n : ℕ) → strlen str ≡ some n → c_string str ≡ take n str
unfolding strlen c_string
c_string-take [] n h = ground arith
c_string-take (c ∷ cs) n h = c_string_step c cs (strlen cs) refl (λ m e. c_string-take cs m e) h

take-snoc_lt :
    {A : Type 0} (k : ℕ) (xs : List A) (x : A)
    → length xs < k
    → take k (xs ++ x ∷ []) ≡ take k xs ++ x ∷ []
take-snoc_lt zero xs x h = absurd (ground arith)
take-snoc_lt (suc zero) [] x h = refl
take-snoc_lt (suc (suc k)) [] x h = refl
take-snoc_lt (suc k) (y ∷ xs) x h = ap (λ ys. y ∷ ys) (take-snoc_lt k xs x (omega arith))

take-snoc_ge :
    {A : Type 0} (k : ℕ) (xs : List A) (x : A) → k ≤ length xs → take k (xs ++ x ∷ []) ≡ take k xs
take-snoc_ge zero xs x h = refl
take-snoc_ge (suc k) [] x h = absurd (ground arith)
take-snoc_ge (suc k) (y ∷ xs) x h = ap (λ ys. y ∷ ys) (take-snoc_ge k xs x (omega arith))

module _ {P W : Type 0} (max : ℕ) where
  -- The store holds the first ten sentences of the list.
  abbrev pub Stores : List Bytes → Gnss P W → Type 0
  Stores log g = Holds max (take 10 log) g

  keep_in :
      (log : List Bytes) (str : Bytes) (n : ℕ) (g : Gnss P W) (b : Bool)
      → ltb g.nmea_string_cnt 10 ≡ b
      → strlen str ≡ some n
      → n < max
      → Stores log g
      → (g' : Gnss P W) × (keep_sentence str g ≡ some g')
        × Stores (log ++ c_string str ∷ []) g'
        × (g'.world ≡ g.world)
  unfolding keep_sentence
  keep_in log str n g true c e fits h =
      let k : length log < 10 = ground (arith, h.cnt, length-take 10 log) in
      let (rows, stored, r, len) =
        store_row-Rows max h.rows (ground (arith, h.cnt, h.ten)) str n e fits in
      let cnt = h.cnt in
      let same : c_string str ≡ take n str = c_string-take str n e in
      let log' : take 10 (log ++ c_string str ∷ []) ≡ take 10 log ++ take n str ∷ [] =
        take-snoc_lt 10 log (c_string str) k ∙ ap (λ x. take 10 log ++ x ∷ []) same in
      (
        record g { nmea_strings = rows; nmea_string_cnt = g.nmea_string_cnt + 1 },
        ground (arith, stored),
        rw (log') (record {
          rows = r;
          ten = ground (arith, len, h.ten);
          cnt = ground (arith, cnt, length-append {A = Bytes} (take 10 log) (take n str ∷ []));
        }),
        refl,
      )
  keep_in log str n g false c e fits h =
      let k : 10 ≤ length log = ground (arith, h.cnt, length-take 10 log) in
      (g, rw (keep_sentence, c) refl, rw (take-snoc_ge 10 log (c_string str) k) h, refl)

module _ {P W : Type 0} (max : ℕ) (modem : Modem P W) (ends : EndsIn modem max) where
  nmea_in :
      (log : List Bytes) (g : Gnss P W) (b : Bool)
      → is_zero (modem.read_nmea g.world).0 ≡ b
      → Stores max log g
      → (g' : Gnss P W) × (on_gnss_evt_nmea modem g ≡ some g')
        × Stores max (log_step log (heard modem evt_nmea g.world).0) g'
        × (g'.world ≡ (heard modem evt_nmea g.world).1)
  unfolding on_gnss_evt_nmea log_step heard EndsIn
  nmea_in log g true r h =
      let (n, e, fits) = ends g.world r in
      let g₁ = record g { world = (modem.read_nmea g.world).2 } in
      let h₁ : Stores max log g₁ = record { rows = h.rows; ten = h.ten; cnt = h.cnt } in
      let (g', k, s, w) = keep_in max log (modem.read_nmea g.world).1 n g₁ _ refl e fits h₁ in
      (g', rw (on_gnss_evt_nmea, r) k, rw r s, w)
  nmea_in log g false r h = (
    record g { world = (modem.read_nmea g.world).2 },
    rw (on_gnss_evt_nmea, r) refl,
    rw r (record { rows = h.rows; ten = h.ten; cnt = h.cnt }),
    refl,
  )

  event_Stores :
      (e : GnssEvent) (log : List Bytes) (g : Gnss P W)
      → Stores max log g
      → (g' : Gnss P W) × (gnss_event_handler modem e g ≡ some g')
        × Stores max (log_step log (heard modem e g.world).0) g'
        × (g'.world ≡ (heard modem e g.world).1)
  unfolding gnss_event_handler log_step heard on_gnss_evt_pvt
  event_Stores evt_pvt log g h = (
    on_gnss_evt_pvt modem (record g { nmea_string_cnt = 0 }),
    refl,
    record { rows = emptied max h.rows; ten = h.ten; cnt = refl },
    refl,
  )
  event_Stores evt_nmea log g h = nmea_in log g _ refl h
  event_Stores evt_fix log g h = (g, refl, h, refl)
  event_Stores evt_other log g h = (g, refl, h, refl)

  -- The store of NMEA sentences refines a list that starts again with each position event and gets
  -- every sentence that is read: where the modem's sentences end with a NUL within their array, any
  -- sequence of events never leaves the arrays, keeps the first ten sentences of the list in their
  -- order, and gnss_strcpy_nmea copies exactly these, one behind the other.
  pub gnss_events-log :
      (es : List GnssEvent) (log : List Bytes) (g : Gnss P W)
      → Stores max log g
      → (g' : Gnss P W) × (gnss_events modem es g ≡ some g')
        × Stores max (log_of modem es g.world log) g'
        × (gnss_strcpy_nmea g' ≡ some (joined (take 10 (log_of modem es g.world log))))
  unfolding gnss_events log_of
  gnss_events-log [] log g h = (g, refl, h, rw h.cnt (copy_rows-Rows max h.rows))
  gnss_events-log (e ∷ es) log g h =
      let (g₁, s, h₁, w) = event_Stores e log g h in
      let (g', r, h', c) = gnss_events-log es (log_step log (heard modem e g.world).0) g₁ h₁ in
      (g', rw s r, rw (sym w) h', rw (sym w) c)
