-- ===== src/Session/Examples.antt =====
-- Sessions with devices that answer from a script (crates/mtp-session/src/lib.rs).
use bsdroid.Base.{◌==◌, length, ok}
use bsdroid.Base.{ℕ, ◌≡◌, refl, ◌≢◌, ◌⊎◌, true, false, some, List, [], ◌∷◌, arith}
use bsdroid.Session.Script.{Script, scripted, session_on, ok_response}
use bsdroid.Ptp.Header
use bsdroid.Ptp.Header.{Header, data_phase, push_header}
use bsdroid.Ptp.Container
use bsdroid.Ptp.Container.{build, build_command, push_u32s}
use bsdroid.Session.{
  StreamOutcome, SessionOpen, session_already_open, slice_source, Session, resp_ok,
}
use bsdroid.Session.Setup.{Config, default_config, normalised}
use bsdroid.Session.Setup.Normalised.{IsUsable, normalised-IsUsable}
use bsdroid.Session.Answer.{operation}
use bsdroid.Session.Answer.Delivered.{joined, done, more}
use bsdroid.Session.Answer.Answered.{IsAnswer, operation_delivered}
use bsdroid.Session.Send.{send_phase}
use bsdroid.Session.Send.Wire.{Framed, Writes}
use bsdroid.Session.Send.Framing.{send_phase-Framed}
use bsdroid.Session.Frame.{operation-IsFramed}
use bsdroid.Session.Life.{open_session_or_repair}
use bsdroid.Session.Life.Repair.{holds_session, open_session_or_repair-IsReport}

-- A data container of two bytes in two transfers, and a response.
abbrev first_transfer : List ℕ
first_transfer = 14 ∷ 0 ∷ 0 ∷ 0 ∷ 2 ∷ 0 ∷ 1 ∷ 16 ∷ 7 ∷ 0 ∷ 0 ∷ 0 ∷ 65 ∷ []

abbrev answering : Session Script
answering = session_on (first_transfer ∷ (66 ∷ []) ∷ ok_response ∷ []) default_config

abbrev answered : Session Script
answered = session_on [] default_config

abbrev payload : List ℕ
payload = 65 ∷ 66 ∷ []

abbrev two_bytes : StreamOutcome
two_bytes = record { response_code = resp_ok; response_params = []; bytes = 2; reads = 2 }

normalised-IsUsable_example :
    IsUsable (normalised (record { timeout = 10; read_buffer = 1; write_chunk = 1000; packet = 0 }))
    × (normalised
          (normalised (record { timeout = 10; read_buffer = 1; write_chunk = 1000; packet = 0 }))
        ≡ normalised (record { timeout = 10; read_buffer = 1; write_chunk = 1000; packet = 0 }))
normalised-IsUsable_example =
    normalised-IsUsable (record { timeout = 10; read_buffer = 1; write_chunk = 1000; packet = 0 })

abbrev sent_command : List ℕ
sent_command = build_command 0x1001 7 []

two_bytes_IsAnswer :
    IsAnswer scripted answering
      (record { left = first_transfer ∷ (66 ∷ []) ∷ ok_response ∷ []; written = sent_command ∷ [] })
      (record { left = []; written = sent_command ∷ [] })
      0x1001
      7
      (65 ∷ [])
      ((66 ∷ []) ∷ [])
      resp_ok
      []
unfolding push_header build push_u32s
two_bytes_IsAnswer = record {
  behind_first = record { left = (66 ∷ []) ∷ ok_response ∷ []; written = sent_command ∷ [] };
  middle = record { left = ok_response ∷ []; written = sent_command ∷ [] };
  bytes = ok_response;
  starts = refl;
  sends = more _ _ _ (66 ∷ []) [] refl (done _);
  responds = refl;
  built = refl;
  answer_fits = omega arith;
  params_fit = tt;
  code_fits = omega arith;
  tid_fits = omega arith;
  payload_fits = omega arith;
  parts_full = (omega arith, tt);
  enough = omega arith;
}

operation_delivered_example : operation scripted "GetDeviceInfo" 0x1001 [] answering ≡ (
  ok (record {
    response_code = resp_ok;
    data_bytes = 65 ∷ 66 ∷ [];
    response_params = [];
    reads = 2;
  }),
  record answering { device = record { left = []; written = sent_command ∷ [] }; transaction = 8 },
)
operation_delivered_example =
    operation_delivered scripted "GetDeviceInfo" answering
      (record { left = first_transfer ∷ (66 ∷ []) ∷ ok_response ∷ []; written = sent_command ∷ [] })
      (record { left = []; written = sent_command ∷ [] }) (length sent_command) 0x1001 [] (65 ∷ [])
      ((66 ∷ []) ∷ []) resp_ok [] refl two_bytes_IsAnswer

-- A packet of 4 bytes, and a payload that fills its last packet.
abbrev narrow : Config
narrow = record { timeout = 10; read_buffer = 512; write_chunk = 16; packet = 4 }

narrow-IsUsable : IsUsable narrow
narrow-IsUsable = record {
  has_packet = omega arith;
  read_holds = omega arith;
  write_holds = omega arith;
  whole_packets = refl;
}

send_phase-Framed_example :
    (ws : List (List ℕ)) × (e : Script) × Writes scripted 10
      (record { left = []; written = [] })
      (build_command 0x100d 7 [] ∷ ws)
      e
    × (build data_phase 0x100d 7 (1 ∷ 2 ∷ 3 ∷ 4 ∷ 5 ∷ 6 ∷ 7 ∷ 8 ∷ []) ≡ ok (joined ws))
    × Framed 4 ws
    × (send_phase scripted slice_source 0 "SendObject" 0x100d [] 8
          (session_on [] narrow, 1 ∷ 2 ∷ 3 ∷ 4 ∷ 5 ∷ 6 ∷ 7 ∷ 8 ∷ [])
        ≡ (ok tt, (record (session_on [] narrow) { device = e; transaction = 8 }, [])))
send_phase-Framed_example =
    send_phase-Framed scripted "SendObject" 0x100d [] (1 ∷ 2 ∷ 3 ∷ 4 ∷ 5 ∷ 6 ∷ 7 ∷ 8 ∷ [])
      (session_on [] narrow) narrow-IsUsable (λ bytes d. (_, _, refl)) (omega arith)

-- A device that answers with an event keeps the session, and takes a transaction.
operation-IsFramed_example :
    (d : Script) × ((operation scripted "GetDeviceInfo" 0x1001 []
        (session_on ((1 ∷ []) ∷ []) narrow)).1
      ≡ record (session_on ((1 ∷ []) ∷ []) narrow) { device = d; transaction = 8 })
operation-IsFramed_example =
    operation-IsFramed scripted "GetDeviceInfo" 0x1001 [] (session_on ((1 ∷ []) ∷ []) narrow)

-- An earlier program left its session: the first answer says so, `CloseSession` succeeds, the device holds nothing back, and the second `OpenSession` succeeds.
abbrev already_response : List ℕ
already_response = 12 ∷ 0 ∷ 0 ∷ 0 ∷ 3 ∷ 0 ∷ 0x1e ∷ 32 ∷ 7 ∷ 0 ∷ 0 ∷ 0 ∷ []

abbrev occupied : Session Script
occupied = session_on (already_response ∷ ok_response ∷ [] ∷ ok_response ∷ []) default_config

abbrev repaired_open : SessionOpen
repaired_open = record {
  outcome = record { response_code = resp_ok; data_bytes = []; response_params = []; reads = 1 };
  repaired = true;
  close_response = some resp_ok;
  dropped = 0;
  wedged = false;
}

abbrev repaired_session : Session Script
repaired_session = record {
  device = record {
    left = [];
    written =
        build_command 0x1002 7 (1 ∷ [])
        ∷ build_command 0x1003 8 []
        ∷ build_command 0x1002 9 (1 ∷ [])
        ∷ [];
  };
  transaction = 10;
  config = default_config;
  session_open = true;
}

occupied_repairs : open_session_or_repair scripted 1 occupied ≡ (ok repaired_open, repaired_session)
unfolding open_session_or_repair build_command Header.parse Container.parse Container.parameters
occupied_repairs = refl

open_session_or_repair-IsReport_example :
    ((holds_session repaired_open.outcome ≡ false) ⊎ (repaired_session.session_open ≡ true))
    × (((repaired_open.repaired ≡ false)
          × (repaired_open.wedged ≡ false)
          × (repaired_open.outcome.response_code ≢ session_already_open))
        ⊎ ((repaired_open.repaired ≡ true)
            × (repaired_open.wedged
                ≡ (repaired_open.outcome.response_code == session_already_open))))
open_session_or_repair-IsReport_example =
    open_session_or_repair-IsReport scripted 1 occupied repaired_session repaired_open
      occupied_repairs
