-- ===== src/Hub/VoiceLoss/Examples.antt =====
-- The theorems about the counters of packets, applied.
use mathlib.Core.List.{Permᴰ}
use wavvon_server.Base.{◌≡◌, refl, [], ◌∷◌, ◌++◌, Option, none, some, arith}
use wavvon_server.Identity.Wire.Encode.{Bytes}
use wavvon_server.Identity.Voice.{voice_packet_seal}
use wavvon_server.Hub.VoiceLoss.{read_ctr, track_all, loss}
use wavvon_server.Hub.VoiceLoss.Laws.{read_ctr-seal, track_all-perm}

abbrev encrypt : Bytes → Bytes → Bytes → Bytes → Bytes
encrypt k n a m = k ++ m

abbrev decrypt : Bytes → Bytes → Bytes → Bytes → Option Bytes
decrypt k n a c = none

read_ctr-seal_example :
    read_ctr (voice_packet_seal encrypt decrypt (1 ∷ []) [] 7 70000 60000 (9 ∷ 8 ∷ [])) ≡ some 70000
read_ctr-seal_example =
    read_ctr-seal encrypt decrypt (1 ∷ []) [] 7 70000 60000 (9 ∷ 8 ∷ []) (omega arith)

-- The second packet came first.
track_all-perm_example :
    (track_all none (2 ∷ 1 ∷ 5 ∷ []) ≡ track_all none (1 ∷ 2 ∷ 5 ∷ []))
    × (loss (track_all none (2 ∷ 1 ∷ 5 ∷ [])) ≡ loss (track_all none (1 ∷ 2 ∷ 5 ∷ [])))
track_all-perm_example =
    track_all-perm none (2 ∷ 1 ∷ 5 ∷ []) (1 ∷ 2 ∷ 5 ∷ []) ∣ Permᴰ.swap refl refl ∣₁
