-- ===== src/Hub/BanEvasion/Examples.antt =====
-- The theorems about flagged addresses, applied to the sample hub.
use wavvon_server.Base.{◌≡◌, refl, String, some, pos, arith}
use wavvon_server.Hub.BanEvasion.{
  recent_sightings, flag_banned, record_sighting, matching_ban, sweep,
}
use wavvon_server.Hub.BanEvasion.Laws.{matching_ban-sweep, matching_ban-flag_banned}
use wavvon_server.Hub.Sample.{sample}

matching_ban-sweep_example :
    (matching_ban "h1" "carol" 700000 (sweep 600000 sample)
      ≡ matching_ban "h1" "carol" 700000 sample)
    × (recent_sightings "carol" 700000 (sweep 600000 sample).ip_sightings
        ≡ recent_sightings "carol" 700000 sample.ip_sightings)
matching_ban-sweep_example = matching_ban-sweep 600000 700000 sample "h1" "carol" (omega arith)

-- Bob is banned an hour after he was seen, for a minute; Mallory comes at its end.
matching_ban-flag_banned_example :
    (m : String) × (matching_ban "h2" "mallory" 3669
        (flag_banned "bob" (some (pos 3670)) 3610 (record_sighting "bob" "h2" 10 sample))
      ≡ some m)
matching_ban-flag_banned_example =
    matching_ban-flag_banned "h2" "bob" "mallory" 10 3610 3669 (some (pos 3670)) sample
      (omega arith) refl (omega arith, refl)
