-- ===== src/SipfFile/Download.antt =====
-- lib/sipf/src/sipf_file.c: SipfFileDownload over the download client, which belongs to the nRF
-- Connect SDK: it calls back with events from a thread of its own, while SipfFileDownload waits for
-- the semaphore.
pub mod Url
use sipf_std_client_nrf.ClientHttp.{Net, UrlState, parse_url}
use sipf_std_client_nrf.Libc.{c_string}
use sipf_std_client_nrf.Prelude.Runs.{Run, returns, waits, lift, ◌>>=◌}
use sipf_std_client_nrf.Prelude.{
  ℕ, Bool, true, false, not, Option, none, some, [], ◌∷◌, List, if◌then◌else◌, ℤ, pos, negsuc, neg,
  is_neg, is_zero, to_int32, Bytes, drop,
}
use sipf_std_client_nrf.SipfFile.{FileConfig, Files, download, request_url, url_strings, tls_of}

pub data DlEvent : Type 0 where
  fragment : Bytes → DlEvent
  done error other : DlEvent

-- download_client_*: `set_host` gets the host, whether TLS is set up, and the fragment size. `start`
-- says which events come before SipfFileDownload goes on behind its wait, and `disconnect` which ones
-- come from then on until the client is disconnected. `sem_take` is the result of the wait, once the
-- semaphore is given.
pub record Downloader (W : Type 0) : Type 0 where
  pub init : W → ℤ × W
  pub set_host : Bytes → Bool → ℕ → W → ℤ × W
  pub start : Bytes → W → ℤ × List DlEvent × W
  pub sem_take : W → ℤ × W
  pub file_size : W → ℕ
  pub disconnect : W → List DlEvent × W

-- A callback on the bytes of a fragment, over statics `S` of its own.
abbrev pub Callback : Type 0 → Type 0 → Type 0
Callback S W = Bytes → S → W → ℤ × S × W

-- `dl_cb_err`, whether `sem_dl_finish` is given, and what the callback works on.
pub record Progress (S W : Type 0) : Type 0 where
  pub dl_cb_err : ℤ
  pub given : Bool
  pub statics : S
  pub world : W

abbrev pub einval : ℤ
einval = neg 22

module _ {S W : Type 0} (dl_cb : Option (Callback S W)) where
  on_fragment : Option (Callback S W) → Bytes → Progress S W → ℤ × Progress S W
  on_fragment none buf d = (pos 0, d)
  on_fragment (some cb) buf d =
      let (ret, s, w) = cb buf d.statics d.world in
      let d' = record d { statics = s; world = w } in
      if is_neg ret then (ret, record d' { dl_cb_err = ret; given = true }) else (pos 0, d')

  -- `event` is NULL where it is `none`.
  unfoldable pub download_client_callback : Option DlEvent → Progress S W → ℤ × Progress S W
  unfolding on_fragment
  download_client_callback none d = (einval, d)
  download_client_callback (some (fragment buf)) d = on_fragment dl_cb buf d
  download_client_callback (some done) d = (pos 0, record d { dl_cb_err = pos 0; given = true })
  download_client_callback (some error) d =
      (negsuc 0, record d { dl_cb_err = negsuc 0; given = true })
  download_client_callback (some other) d = (pos 0, d)

  -- The events, one behind the other. The semaphore counts up to 1.
  unfoldable pub deliver : List DlEvent → Progress S W → Progress S W
  deliver [] d = d
  deliver (e ∷ es) d = let (ret, d') = download_client_callback (some e) d in deliver es d'

-- The result, what the callback worked on, and the rest.
pub record Downloaded (S W : Type 0) : Type 0 where
  pub ret : ℤ
  pub statics : S
  pub files : Files W

-- the state with another world
abbrev pub at_world : {W : Type 0} → Files W → W → Files W
at_world f w = record f { client = record f.client { world = w } }

-- the statics behind the events
abbrev pub behind : {S W : Type 0} → Progress S W → Files W → Files W
behind d f = record (at_world f d.world) { dl_finish = d.given; dl_cb_err = d.dl_cb_err }

module _ {S W : Type 0} (net : Net W) (cfg : FileConfig) (dl : Downloader W) where
  -- download_client_disconnect, with the events until then, in front of a return
  leave : Callback S W → ℤ → Progress S W → Files W → Downloaded S W
  leave cb ret d f =
      let (late, w) = dl.disconnect d.world in
      let d' = deliver (some cb) late (record d { world = w }) in
      record { ret = ret; statics = d'.statics; files = behind d' f }

  -- the wait, and what is behind it
  finish : Callback S W → Progress S W → Files W → Run (Downloaded S W)
  finish cb d f =
      let (ret, w) = dl.sem_take d.world in
      let taken = record d { given = not (is_zero ret); world = w } in
      if d.given
      then returns (
          leave cb
            (if is_zero ret
              then (if is_zero d.dl_cb_err then to_int32 (dl.file_size w) else d.dl_cb_err)
              else ret)
            taken f)
      else waits

  -- from download_client_init on
  unfoldable pub fetch :
      Callback S W → Bytes → Bytes → Bool → ℕ → S → Files W → Run (Downloaded S W)
  unfolding finish leave
  fetch cb host path tls sz_download s f =
      let (r₁, w₁) = dl.init f.client.world in
      let (r₂, w₂) = dl.set_host host tls sz_download w₁ in
      let (r₃, events, w₃) = dl.start path w₂ in
      let stop : ℤ → W → Run (Downloaded S W) =
        λ r w. returns (record { ret = r; statics = s; files = at_world f w }) in
      let before : Progress S W = record {
        dl_cb_err = f.dl_cb_err;
        given = f.dl_finish;
        statics = s;
        world = w₃;
      } in
      if is_zero r₁
      then (if is_zero r₂
          then (if is_zero r₃
              then finish cb (deliver (some cb) events before) f
              else returns (leave cb r₃ before f))
          else stop r₂ w₂)
      else stop r₁ w₁

  -- behind SipfClientHttpParseURL: its result, and the buffer with the pointers
  fetch_split : Callback S W → ℕ → S → Files W → ℤ × UrlState → Run (Downloaded S W)
  fetch_split cb sz_download s f (ret, u) =
      let f₁ = record f { image_url = u.buf } in
      let stop : ℤ → Run (Downloaded S W) =
        λ r. returns (record { ret = r; statics = s; files = f₁ }) in
      if is_neg ret then stop ret else elim (url_strings u) [
        | none ↦ stop (negsuc 0)
        | some str ↦ elim (tls_of str.prot) [
          | none ↦ stop (negsuc 0)
          | some tls ↦ fetch cb str.host (c_string (drop str.path_at u.buf)) tls sz_download s f₁
        ]
      ]

  -- from SipfClientHttpParseURL on, for a URL of `n` characters
  fetch_from : Callback S W → ℕ → ℕ → S → Files W → Run (Downloaded S W)
  fetch_from cb sz_download n s f =
      lift (parse_url f.image_url n) >>= fetch_split cb sz_download s f

  unfoldable pub file_download : Bytes → ℕ → Callback S W → S → Files W → Run (Downloaded S W)
  unfolding fetch_from fetch_split
  file_download file_id sz_download cb s f = do
    (ret, url, f') ← lift (request_url net cfg download file_id f.image_url f)
    let f'' = record f' { image_url = url }
    elim ret [
      | negsuc e ↦ returns (record { ret = negsuc e; statics = s; files = f'' })
      | pos n ↦ fetch_from cb sz_download n s f''
    ]
