-- ===== src/Main/Keeps.antt =====
-- src/main.c: what the authentication keeps of the registers, of which it writes the mode alone.
use sipf_std_client_nrf.ClientHttp.{Net}
use sipf_std_client_nrf.Main.{
  Node, set_mode, request_auth, use_auth_info, retry_later, request_until, boot_auth, switch_auth,
  auth_round,
}
use sipf_std_client_nrf.Prelude.Runs.{returns, lift, Leaves, bind-Leaves}
use sipf_std_client_nrf.Prelude.{
  ℕ, zero, suc, Bool, true, false, Option, none, some, is_neg, ℤ, if◌then◌else◌, arith, set,
}
use sipf_std_client_nrf.Registers.{Registers}
use sipf_std_client_nrf.SipfAuth.{AuthConfig}
use sipf_std_client_nrf.Zephyr.{Kernel}

-- A property of the registers that a write of 0 to the mode keeps.
module _ {W : Type 0} (k : Kernel W) (net : Net W) (cfg : AuthConfig) (Q : Registers → Type 0)
    (reset : (r : Registers) → Q r → Q (record r { bank00 = set r.bank00 0 0 })) where
  abbrev Holds : Node W → Type 0
  Holds s = Q s.registers

  mode_0-Holds : (s : Node W) → Holds s → Holds (set_mode 0 s)
  mode_0-Holds s t = reset s.registers t

  unless_refused-Holds :
      (err : ℤ) (s : Node W) → Holds s → Holds (if is_neg err then set_mode 0 s else s)
  unless_refused-Holds err s t =
      let reset = mode_0-Holds s t in
      elim (is_neg err) as (λ r. Holds (if r then set_mode 0 s else s)) [ true ↦ reset | false ↦ t ]

  request_auth-Holds :
      (s : Node W) → Holds s → Leaves (λ r. Holds r.1) (lift (request_auth k net cfg s))
  unfolding request_auth
  request_auth-Holds s t = ground arith

  use_auth_info-Holds : (s : Node W) → Holds s → Leaves Holds (lift (use_auth_info k net cfg s))
  unfolding use_auth_info
  use_auth_info-Holds s t = let reset = mode_0-Holds s t in ground arith

  switch_auth-Holds : (s : Node W) → Holds s → Leaves Holds (lift (switch_auth k net cfg s))
  unfolding switch_auth
  switch_auth-Holds s t = switched (request_auth k net cfg s) (request_auth-Holds s t)
    where
      switched :
          (r : Option (ℤ × Node W))
          → Leaves (λ r. Holds r.1) (lift r)
          → Leaves Holds (
              lift (elim r [
                | none ↦ none
                | some (err, s') ↦
                    use_auth_info k net cfg (if is_neg err then set_mode 0 s' else s')
              ]))
      switched none t = tt
      switched (some (err, s')) t = use_auth_info-Holds _ (unless_refused-Holds err s' t)

  pub auth_round-Holds :
      (prev : ℕ) (s : Node W)
      → Holds s
      → Leaves (λ r. Holds r.0) (lift (auth_round k net cfg prev s))
  unfolding auth_round
  auth_round-Holds prev s t = let switched = switch_auth-Holds s t in ground arith

  request_until-Holds :
      (fuel : ℕ) (s : Node W) → Holds s → Leaves Holds (request_until k net cfg fuel s)
  unfolding request_until retry_later
  request_until-Holds zero s t = tt
  request_until-Holds (suc fuel) s t =
      bind-Leaves (λ r. Holds r.1) Holds (lift (request_auth k net cfg s)) _
        (request_auth-Holds s t) (λ r t'. tried fuel (is_neg r.0) r.1 (request_until-Holds fuel) t')
    where
      tried :
          (fuel : ℕ) (refused : Bool) (s' : Node W)
          → ((s : Node W) → Holds s → Leaves Holds (request_until k net cfg fuel s))
          → Holds s'
          → Leaves Holds (elim refused [
            | true ↦ request_until k net cfg fuel (retry_later k net cfg s')
            | false ↦ returns s'
          ])
      tried fuel true s' ih t' = ih (retry_later k net cfg s') (mode_0-Holds s' t')
      tried fuel false s' ih t' = t'

  pub boot_auth-Holds :
      (fuel : ℕ) (s : Node W) → Holds (set_mode 1 s) → Leaves Holds (boot_auth k net cfg fuel s)
  unfolding boot_auth
  boot_auth-Holds fuel s t =
      bind-Leaves Holds Holds (request_until k net cfg fuel (set_mode 1 s)) _
        (request_until-Holds fuel (set_mode 1 s) t) use_auth_info-Holds
