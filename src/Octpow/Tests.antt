-- ===== src/Octpow/Tests.antt =====
-- The packets of some requests, and each theorem at an input.
use chunxiao_code.Prelude.{◌≡◌, refl, [], ◌∷◌, false}
use chunxiao_code.Prelude.Int.{pos}
use chunxiao_code.Octpow.Wire.{byte}
use chunxiao_code.Octpow.Send.{System}
use chunxiao_code.Octpow.Dispatch.{perform, port_set, ac_request, cpu_set}
use chunxiao_code.Octpow.Header.{Announces, perform-Announces}
use chunxiao_code.Octpow.Payload.{Declares, perform-Declares}

-- A socket that takes every packet.
abbrev machine : System
machine = record {
  time = 0x01020304;
  rand = λ seed. seed;
  sendto_fails = λ packet. false;
  stale = pos 16;
}

port_set_packet :
    (perform (port_set 5246 5247) machine []).0
    ≡ (byte 0x45
        ∷ byte 0x41
        ∷ byte 0x43
        ∷ byte 0x50
        ∷ byte 4
        ∷ byte 3
        ∷ byte 2
        ∷ byte 1
        ∷ byte 0
        ∷ byte 5
        ∷ byte 0
        ∷ byte 4
        ∷ byte 0x7e
        ∷ byte 0x14
        ∷ byte 0x7f
        ∷ byte 0x14
        ∷ [])
      ∷ []
unfolding perform
port_set_packet = refl

perform-Announces_example : Announces ac_request [] (perform ac_request machine []).0
perform-Announces_example = perform-Announces ac_request machine []

perform-Declares_example : Declares (cpu_set 90) [] (perform (cpu_set 90) machine []).0
perform-Declares_example = perform-Declares (cpu_set 90) machine []
