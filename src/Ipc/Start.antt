-- ===== src/Ipc/Start.antt =====
-- wireguard.go: `StartWireguard`, as the calls that it makes of the device library.
pub mod Laws
mod Tests
use model_lib.Base.{
  Bool, true, false, Option, none, some, List, [], ◌∷◌, ◌++◌, ◌==◌, Bytes, length, Error, Result,
  ok, err,
}
use model_lib.Base.Int.{ℤ}
use model_lib.Config.Types.{Addr, DeviceConfig}
use model_lib.Routine.{PingRecord}
use model_lib.Ipc.{DeviceSetting, create_ipc_request}

-- netstack.CreateNetTUN, device.NewDevice with its log level, IpcSet and Up
pub data Call : Type 0 where
  create_net_tun : List Addr → List Addr → ℤ → Call
  new_device : ℤ → Call
  ipc_set : Bytes → Call
  up : Call

-- The errors of the calls, if there are any.
pub record Answers : Type 0 where
  pub tun_error : Option Error
  pub ipc_set_error : Option Error
  pub up_error : Option Error

-- What VirtualTun keeps beside the handles of the device.
pub record VirtualTun : Type 0 where
  pub conf : DeviceConfig
  pub system_dns : Bool
  pub ping_record : PingRecord

abbrev pub virtual_tun : DeviceConfig → DeviceSetting → VirtualTun
virtual_tun conf setting = record {
  conf = conf;
  system_dns = length setting.dns == 0;
  ping_record = [];
}

-- The call is made, and its error returned at once.
abbrev pub try_call {ℓ} :
    {A : Type ℓ} → Call → Option Error → List Call × Result A → List Call × Result A
try_call call (some e) rest = (call ∷ [], err e)
try_call call none (calls, result) = (call ∷ calls, result)

pub start_wireguard : DeviceConfig → ℤ → Answers → List Call × Result VirtualTun
start_wireguard conf log_level answers =
    let setting = create_ipc_request conf in
    try_call (create_net_tun setting.device_addr setting.dns setting.mtu) answers.tun_error (
      try_call (new_device log_level) none (
        try_call (ipc_set setting.ipc_request) answers.ipc_set_error
          (try_call up answers.up_error ([], ok (virtual_tun conf setting)))))
