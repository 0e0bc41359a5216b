-- ===== src/Farm/Examples.antt =====
-- The theorems about slugs, placement and supervision, applied.
use wavvon_server.Base.{
  ℕ, ◌+◌, ◌≤◌, ◌<◌, ◌≡◌, refl, ◌↔◌, String, Bool, true, false, List, [], ◌∷◌, Option, none, some,
  arith, length, All, map, any, ltb, ◌&&◌, retain, contains, str_eq,
}
use wavvon_server.Base.Chars.{byte_len, is_ascii_hexdigit, trim}
use wavvon_server.Base.Chars.{chars}
use wavvon_server.Farm.Slug.{normalize}
use wavvon_server.Farm.Slug.Laws.{normalize-case_insensitive}
use wavvon_server.Farm.Placement.{Node, choose}
use wavvon_server.Farm.Placement.Laws.{IsBest, choose-IsBest}
use wavvon_server.Farm.Monitor.{Decision, HubRow, Farm, decide, is_supervised, tick}
use wavvon_server.Farm.Heartbeats.{receive_heartbeat, has_pubkey}
use wavvon_server.Farm.Heartbeats.Laws.{receive_heartbeat-spares}
use wavvon_server.Farm.Heartbeats.Liveness.{tick-restarts_silent}
use wavvon_server.Farm.Monitor.Laws.{hubs-tick}
use wavvon_server.Farm.Monitor.Bounds.{ticks, times, attempts_of, ticks-restarts}

normalize-case_insensitive_example :
    normalize (chars "MangiaDaPippo") ≡ normalize (chars "mangiadapippo")
unfolding wavvon_server.Base.Chars.to_ascii_lowercase
normalize-case_insensitive_example =
    normalize-case_insensitive (chars "MangiaDaPippo") (chars "mangiadapippo") refl

abbrev agent : String → ℕ → ℕ → Node
agent id in_use capacity = record { server_id = some id; in_use = in_use; capacity = some capacity }

abbrev two_agents : List Node
two_agents = agent "s1" 5 5 ∷ agent "s2" 1 3 ∷ []

choose-IsBest_example : IsBest two_agents (agent "s2" 1 3)
unfolding choose
choose-IsBest_example = choose-IsBest two_agents (agent "s2" 1 3) (refl, (refl, tt)) refl

abbrev silent : String → HubRow
silent id = record {
  id = id;
  hub_pubkey = none;
  created_at = 0;
  suspended_at = none;
  deleted_at = none;
  process_port = some 9000;
  auto_restart_enabled = true;
  restart_attempts = 0;
  last_restart_at = none;
}

abbrev farm : Farm
farm = record { hubs = silent "h1" ∷ silent "h2" ∷ []; heartbeats = []; restarts = [] }

hubs-tick_example :
    (tick 1000 farm).hubs
    ≡ record (silent "h1") { restart_attempts = 1; last_restart_at = some 1000 }
      ∷ record (silent "h2") { restart_attempts = 1; last_restart_at = some 1000 }
      ∷ []
unfolding tick
hubs-tick_example = hubs-tick 1000 farm (refl, (refl, tt))

ticks-restarts_example :
    times "h2" (ticks (1000 ∷ 1030 ∷ 1060 ∷ []) farm).restarts + attempts_of "h2" farm.hubs ≤ 5
ticks-restarts_example =
    ticks-restarts (1000 ∷ 1030 ∷ 1060 ∷ []) farm "h2" (refl, (refl, tt))
      (omega arith, (omega arith, tt))

-- The second hub reports for the first time, and claims its row.
receive_heartbeat-spares_example :
    let d : Farm =
      (receive_heartbeat (record { hub_pubkey = some "k"; hub_id = some "h2" }) 1000 farm).0 in
    (any (λ h. has_pubkey "k" h && ltb 0 h.restart_attempts) d.hubs ≡ false)
    × (retain (has_pubkey "k") (ticks (1010 ∷ 1100 ∷ 1179 ∷ []) d).hubs
        ≡ retain (has_pubkey "k") d.hubs)
unfolding receive_heartbeat
receive_heartbeat-spares_example =
    receive_heartbeat-spares "k" (some "h2") 1000 (1010 ∷ 1100 ∷ 1179 ∷ []) farm (refl, (refl, tt))
      refl (omega arith, (omega arith, (omega arith, tt)))

tick-restarts_silent_example : contains (tick 1000 farm).restarts "h2" ≡ true
unfolding is_supervised wavvon_server.Farm.Monitor.effective_last_seen
tick-restarts_silent_example =
    tick-restarts_silent 1000 farm "h2" (silent "h2") refl (omega arith) (omega arith) tt
