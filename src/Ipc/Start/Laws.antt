-- ===== src/Ipc/Start/Laws.antt =====
-- wireguard.go: what a device is told before it goes up.
use model_lib.Base.{
  Bool, true, false, Option, none, some, List, [], ◌∷◌, ◌==◌, ◌≡◌, ◌⊎◌, refl, inl, inr, Bytes,
  length, Error, Result, ok, err,
}
use model_lib.Base.Int.{ℤ}
use model_lib.Config.Types.{World, Addr, DeviceConfig, Configuration}
use model_lib.Config.File.{parse_config}
use model_lib.Ipc.{create_ipc_request}
use model_lib.Ipc.Settings.{Setting, device_settings}
use model_lib.Ipc.RoundTrip.{read_request}
use model_lib.Ipc.Clean.{read_request-create_ipc_request}
use model_lib.Ipc.Parsed.{WorldOneLine, parse_config-IsOneLine}
use model_lib.Ipc.Start.{
  Call, create_net_tun, new_device, ipc_set, up, Answers, VirtualTun, virtual_tun, start_wireguard,
}

-- A device as the library documents it: it has the addresses and the resolvers of its tun, it holds the
-- settings of the requests, and it runs once it is up.
pub record Device : Type 0 where
  pub addresses : List Addr
  pub resolvers : List Addr
  pub mtu : Option ℤ
  pub settings : List (List Setting)
  pub running : Bool

abbrev pub no_device : Device
no_device = record { addresses = []; resolvers = []; mtu = none; settings = []; running = false }

abbrev pub apply : Call → Device → Device
apply (create_net_tun addrs dns m) d = record d { addresses = addrs; resolvers = dns; mtu = some m }
apply (new_device level) d = d
apply (ipc_set request) d = record d { settings = read_request request ∷ d.settings }
apply up d = record d { running = true }

pub after_calls : List Call → Device → Device
after_calls [] d = d
after_calls (call ∷ calls) d = after_calls calls (apply call d)

-- The device runs as the configuration says.
abbrev pub runs_as : DeviceConfig → Device
runs_as conf = record {
  addresses = conf.endpoint;
  resolvers = conf.dns;
  mtu = some conf.mtu;
  settings = device_settings conf ∷ [];
  running = true;
}

-- Without an error the device runs as the configuration says, and names are resolved by the system exactly
-- if there is no DNS server. With an error, the call that failed is the cause, and the device was not
-- brought up before it had taken its settings.
abbrev pub StartedAs : DeviceConfig → Answers → List Call × Result VirtualTun → Type 0
StartedAs conf answers (calls, result) =
    ((answers.tun_error ≡ none)
      × (answers.ipc_set_error ≡ none)
      × (answers.up_error ≡ none)
      × (after_calls calls no_device ≡ runs_as conf)
      × ((tun : VirtualTun) × (result ≡ ok tun)
          × (tun.conf ≡ conf)
          × (tun.system_dns ≡ (length conf.dns == 0))))
    ⊎ ((e : Error) × (result ≡ err e)
        × (((answers.tun_error ≡ some e) × ((after_calls calls no_device).running ≡ false))
            ⊎ (((answers.tun_error ≡ none)
                  × (answers.ipc_set_error ≡ some e)
                  × ((after_calls calls no_device).running ≡ false))
                ⊎ ((answers.tun_error ≡ none)
                    × (answers.ipc_set_error ≡ none)
                    × (answers.up_error ≡ some e)))))

start_wireguard-told :
    (conf : DeviceConfig) (log_level : ℤ) (tun_error ipc_set_error up_error : Option Error)
    → read_request (create_ipc_request conf).ipc_request ≡ device_settings conf
    → let answers : Answers = record {
      tun_error = tun_error;
      ipc_set_error = ipc_set_error;
      up_error = up_error;
    } in
      StartedAs conf answers (start_wireguard conf log_level answers)
unfolding start_wireguard after_calls
start_wireguard-told conf log_level (some e) i u told = inr (e, refl, inl (refl, refl))
start_wireguard-told conf log_level none (some e) u told =
    inr (e, refl, inr (inl (refl, refl, refl)))
start_wireguard-told conf log_level none none (some e) told =
    inr (e, refl, inr (inr (refl, refl, refl)))
start_wireguard-told conf log_level none none none told =
    unfold create_ipc_request in
    inl (
      refl,
      refl,
      refl,
      (λ k. record {
        addresses = conf.endpoint;
        resolvers = conf.dns;
        mtu = some conf.mtu;
        settings = told k ∷ [];
        running = true;
      }),
      (virtual_tun conf (create_ipc_request conf), refl, refl, refl),
    )

-- The WireGuard device of a configuration that ParseConfig accepts, where addresses, prefixes and the values
-- of the files have no line break: StartWireguard returns without an error exactly if none of its calls
-- fails, and then the device has the addresses, the resolvers and the MTU of the configuration, has taken the
-- settings of the configuration and no others, and runs; names are resolved by the system exactly if there is
-- no DNS server. Otherwise the first call that fails is the error that is returned, and the device was not
-- brought up before it had taken its settings.
pub start_wireguard-StartedAs :
    (w : World) (path : Bytes) (c : Configuration) (log_level : ℤ) (answers : Answers)
    → WorldOneLine w
    → parse_config w path ≡ ok c
    → StartedAs c.device answers (start_wireguard c.device log_level answers)
start_wireguard-StartedAs w path c log_level answers world parsed =
    start_wireguard-told c.device log_level answers.tun_error answers.ipc_set_error answers.up_error
      (read_request-create_ipc_request c.device (parse_config-IsOneLine w path world parsed))
