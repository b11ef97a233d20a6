-- ===== src/Backend/Start.antt =====
-- How the mount opens the session of a device that was found, and how it ends (`open_once` behind
-- the search, `open`, `first_storage` and `Drop` of crates/mtpfs/src/backend.rs).
use bsdroid.Base.{ltb, if◌then◌else◌}
use bsdroid.Base.{length}
use bsdroid.Base.{Result, ok, err, map_err}
use bsdroid.Base.{u32_at}
use bsdroid.Base.{ℕ, zero, suc, ◌*◌, true, false, not, ◌&&◌, none, []}
use bsdroid.Base.Action.{Action, pure, raise, lift, ◌>>=◌}
use bsdroid.Ptp.Device.{
  DeviceInfo, parse_device_info, supports, get_partial_object, get_partial_object_64,
  get_object_prop_list,
}
use bsdroid.Session.{is_success, SessionOpen, Transport}
use bsdroid.Session.Setup.{normalised}
use bsdroid.Session.Life.{new, open_session_or_repair, close_session, reset_device, drop_session}
use bsdroid.Backend.{
  Settings, Error, no_device, parse, device, no_storage, no_partial_read, worth_another_try, Mtp,
}
use bsdroid.Backend.Calls.{on_session, operation}

-- `op::GET_DEVICE_INFO` and `op::GET_STORAGE_IDS`.
abbrev pub get_device_info : ℕ
get_device_info = 0x1001

abbrev pub get_storage_ids : ℕ
get_storage_ids = 0x1004

abbrev pub read_buffer : ℕ
read_buffer = 1024 * 1024

-- The result of the first attempt that gives a session, or of the last one. A fault that another try cannot answer ends the loop. The model leaves out the wait between two attempts.
unfoldable pub open_attempts {ℓ κ} :
    {S : Type ℓ} {A : Type κ} → ℕ → Action Error S A → Error → Action Error S A
open_attempts zero once last s = (err last, s)
open_attempts (suc attempts) once last s =
    let (r, s1) = once s in
    elim r [
      | ok a ↦ (ok a, s1)
      | err e ↦ if worth_another_try e then open_attempts attempts once e s1 else (err e, s1)
    ]

abbrev pub find_attempts : ℕ
find_attempts = 5

unfoldable pub open_mtp {ℓ κ} : {S : Type ℓ} {A : Type κ} → Action Error S A → Action Error S A
unfolding open_attempts
open_mtp once = open_attempts find_attempts once no_device

-- The operation code for a partial read.
unfoldable pub partial_code : DeviceInfo → Result Error ℕ
unfolding supports
partial_code info =
    if supports info get_partial_object_64
    then ok get_partial_object_64
    else if supports info get_partial_object
    then ok get_partial_object
    else err no_partial_read

abbrev pub note_info : {D : Type 0} → DeviceInfo → Action Error (Mtp D) (Unit {0})
note_info i m = (
  ok tt,
  record m { info = i; fast_list = supports i get_object_prop_list && not m.settings.no_proplist },
)

abbrev pub note_partial : {D : Type 0} → ℕ → Action Error (Mtp D) (Unit {0})
note_partial code m = (ok tt, record m { partial_read = code })

abbrev pub note_storage : {D : Type 0} → ℕ → Action Error (Mtp D) (Unit {0})
note_storage id m = (ok tt, record m { storage = id })

module _ {D : Type 0} (tr : Transport D) where
  -- The loop of `first_storage`: the first identifier behind the count.
  unfoldable pub ask_storage : ℕ → Action Error (Mtp D) ℕ
  unfolding operation
  ask_storage zero = raise no_storage
  ask_storage (suc attempts) = operation tr "GetStorageIDs" get_storage_ids [] >>= λ bytes.
      elim (ltb (length bytes) 8) [ false ↦ pure (u32_at bytes 4) | true ↦ ask_storage attempts ]

  unfoldable pub first_storage : Action Error (Mtp D) ℕ
  unfolding ask_storage
  first_storage = ask_storage 10

  unfoldable pub check_open : SessionOpen → Action Error (Mtp D) (Unit {0})
  check_open o =
      if not (is_success o.outcome)
      then raise (device "OpenSession" o.outcome.response_code)
      else pure tt

  -- `Drop::drop` of the mount: a fault is not passed on.
  unfoldable pub drop_mtp : Mtp D → Mtp D
  unfolding close_session reset_device
  drop_mtp m =
      let (closed, s) = close_session tr m.session in
      if m.settings.usb_reset
      then record m { session = (reset_device tr s).1 }
      else record m { session = s }

  -- `open_once` from the session on: `max_packet_size` is that of the interface, and `none_known` the `DeviceInfo` of `Default`. A fault drops the mount and then its session, which leaves the device.
  unfoldable pub start : Settings → ℕ → DeviceInfo → D → Result (Error × D) (Mtp D)
  unfolding new normalised open_session_or_repair operation parse_device_info partial_code
      first_storage check_open drop_mtp drop_session
  start settings max_packet_size none_known d =
      let config = normalised (record {
        timeout = settings.timeout;
        read_buffer = read_buffer;
        write_chunk = settings.write_chunk;
        packet = max_packet_size;
      }) in
      let (s, dropped) = new tr d config in
      let m : Mtp D = record {
        session = s;
        settings = settings;
        storage = 0;
        partial_read = get_partial_object;
        fast_list = false;
        packet = config.packet;
        cache = none;
        info = none_known;
      } in
      let (r, m1) =
        (on_session (open_session_or_repair tr 1) >>= λ o. check_open o >>= λ _.
        operation tr "GetDeviceInfo" get_device_info [] >>= λ raw.
        lift (map_err parse (parse_device_info raw)) >>= λ i. note_info i >>= λ _.
        lift (partial_code i) >>= λ code.
        note_partial code >>= λ _. first_storage >>= λ id. note_storage id)
          m in
      elim r [ err e ↦ err (e, (drop_session tr (drop_mtp m1).session).device) | ok u ↦ ok m1 ]
