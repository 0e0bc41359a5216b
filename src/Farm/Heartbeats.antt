-- ===== src/Farm/Heartbeats.antt =====
-- `receive_heartbeat` of crates/farm/src/routes/heartbeat.rs: a hub reports, claims its row on first
-- contact, and gets a clean slate of restarts. The counts that it reports besides are stored and
-- read by nothing that is modelled; the address and the siblings that it is told are not modelled.
pub mod Laws
pub mod Liveness
use wavvon_server.Base.{
  ℕ, ltb, String, Bool, true, false, not, ◌&&◌, List, [], ◌∷◌, map, Option, none, some, str_eq, any,
  retain, if◌then◌else◌,
}
use wavvon_server.Http.{Result, ok, fail, bad_request, forbidden}
use wavvon_server.Farm.Monitor.{HubRow, Heartbeat, Farm, is_null}

-- The fields of the body, where they are texts.
pub record Payload : Type 0 where
  pub hub_pubkey : Option String
  pub hub_id : Option String

abbrev pub has_pubkey : String → HubRow → Bool
has_pubkey pk h = elim h.hub_pubkey [ none ↦ false | some k ↦ str_eq k pk ]

-- `WHERE id = $2 AND hub_pubkey IS NULL AND deleted_at IS NULL`
abbrev pub is_claimable : String → HubRow → Bool
is_claimable id h = str_eq h.id id && (is_null h.hub_pubkey && is_null h.deleted_at)

abbrev pub claimed_row : String → String → HubRow → HubRow
claimed_row pk id h = if is_claimable id h then record h { hub_pubkey = some pk } else h

-- The claim: a pubkey that some row has already would stand twice in a unique index, and the
-- statement fails, which is only logged.
unfoldable pub claim : String → Option String → Farm → Farm
claim pk none f = f
claim pk (some id) f =
    if any (has_pubkey pk) f.hubs then f else record f { hubs = map (claimed_row pk id) f.hubs }

unfoldable pub is_known : String → Farm → Bool
is_known pk f = any (λ h. has_pubkey pk h && is_null h.deleted_at) f.hubs

-- `INSERT INTO hub_heartbeats … ON CONFLICT (hub_pubkey) DO UPDATE`
abbrev pub upsert_heartbeat : String → ℕ → List Heartbeat → List Heartbeat
upsert_heartbeat pk now beats =
    record { hub_pubkey = pk; last_seen_at = now }
    ∷ retain (λ b. not (str_eq b.hub_pubkey pk)) beats

-- `SET restart_attempts = 0 WHERE hub_pubkey = $1 AND restart_attempts > 0`
abbrev pub reset_row : String → HubRow → HubRow
reset_row pk h =
    if has_pubkey pk h && ltb 0 h.restart_attempts then record h { restart_attempts = 0 } else h

-- The two statements for a hub that is recognised.
unfoldable pub record_heartbeat : String → ℕ → Farm → Farm
record_heartbeat pk now f = record f {
  hubs = map (reset_row pk) f.hubs;
  heartbeats = upsert_heartbeat pk now f.heartbeats;
}

-- Behind the claim.
unfoldable pub admit : String → ℕ → Farm → Farm × Result (Unit {0})
unfolding is_known record_heartbeat
admit pk now f =
    if is_known pk f then (record_heartbeat pk now f, ok tt) else (f, fail forbidden "")

unfoldable pub receive_heartbeat : Payload → ℕ → Farm → Farm × Result (Unit {0})
unfolding claim admit
receive_heartbeat payload now f = elim payload.hub_pubkey [
  | none ↦ (f, fail bad_request "")
  | some pk ↦
      if str_eq pk "" then (f, fail bad_request "") else admit pk now (claim pk payload.hub_id f)
]
